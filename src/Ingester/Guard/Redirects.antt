-- ===== src/Ingester/Guard/Redirects.antt =====
-- grpc_ingester/src/metadata/guard.rs: IPv6 addresses, the hosts of URLs, and the redirects that the
-- public client follows. A URL is its scheme and its host, as the crate url gives them.
use das.Prelude.{
  ℕ, suc, ◌+◌, ◌/◌, ◌%◌, ◌≤◌, ◌<◌, ◌≡◌, refl, Bool, true, false, not, ◌&&◌, ◌||◌, Option, none,
  some, List, [], ◌∷◌, Text, All, length, leb, ◌==◌, bit_and, if◌then◌else◌, arith,
}
use das.Ingester.Downloads.{is_http}
use das.Ingester.Guard.{Ipv4Addr, is_global_v4}

-- The eight segments of 16 bits.
pub record Ipv6Addr : Type 0 where
  pub s0 : ℕ
  pub s1 : ℕ
  pub s2 : ℕ
  pub s3 : ℕ
  pub s4 : ℕ
  pub s5 : ℕ
  pub s6 : ℕ
  pub s7 : ℕ

abbrev pub zero_to_4 : Ipv6Addr → Bool
zero_to_4 a = (a.s0 == 0) && ((a.s1 == 0) && ((a.s2 == 0) && ((a.s3 == 0) && (a.s4 == 0))))

-- `to_ipv4`: the IPv4-mapped and the IPv4-compatible addresses.
pub to_ipv4 : Ipv6Addr → Option Ipv4Addr
to_ipv4 a =
    if zero_to_4 a && ((a.s5 == 0) || (a.s5 == 0xffff))
    then some (record { o0 = a.s6 / 256; o1 = a.s6 % 256; o2 = a.s7 / 256; o3 = a.s7 % 256 })
    else none

-- `::` and `::1`.
abbrev pub ends_in : ℕ → Ipv6Addr → Bool
ends_in n a = zero_to_4 a && ((a.s5 == 0) && ((a.s6 == 0) && (a.s7 == n)))

pub is_global_v6 : Ipv6Addr → Bool
is_global_v6 a = not (
    ends_in 0 a
    || (ends_in 1 a
        || ((bit_and a.s0 0xff00 == 0xff00)
            || ((bit_and a.s0 0xfe00 == 0xfc00)
                || ((bit_and a.s0 0xffc0 == 0xfe80)
                    || (((a.s0 == 0x2001) && (a.s1 == 0x0db8))
                        || ((a.s0 == 0x0064) && (a.s1 == 0xff9b))))))))

pub data IpAddr : Type 0 where
  v4 : Ipv4Addr → IpAddr
  v6 : Ipv6Addr → IpAddr

abbrev pub is_global_embedded : Ipv6Addr → Option Ipv4Addr → Bool
is_global_embedded a none = is_global_v6 a
is_global_embedded a (some o) = is_global_v4 o

pub is_global : IpAddr → Bool
is_global (v4 o) = is_global_v4 o
is_global (v6 a) = is_global_embedded a (to_ipv4 a)

pub data Host : Type 0 where
  ipv4 : Ipv4Addr → Host
  ipv6 : Ipv6Addr → Host
  domain : Text → Host

pub record Url : Type 0 where
  pub scheme : Text
  pub host : Option Host

-- A domain is left to the resolver.
unfoldable pub host_allowed : Url → Bool
host_allowed url = allowed url.host
  where
    allowed : Option Host → Bool
    allowed none = false
    allowed (some (ipv4 o)) = is_global (v4 o)
    allowed (some (ipv6 a)) = is_global (v6 a)
    allowed (some (domain d)) = true

pub data Verdict : Type 0 where
  too_many_redirects blocked follow : Verdict

-- The public client's policy on a redirect, after `previous` URLs.
unfoldable pub redirect_policy : ℕ → Url → Verdict
redirect_policy previous url =
    if leb 5 previous
    then too_many_redirects
    else if not (is_http url.scheme) || not (host_allowed url)
    then blocked
    else follow

-- The URLs that are requested, if the answers redirect to `targets` one after the other. The URLs
-- before a redirect, the first one included, are its `previous` ones.
abbrev pub is_follow : Verdict → Bool
is_follow follow = true
is_follow _ = false

unfoldable pub requested : ℕ → Url → List Url → List Url
requested previous url [] = url ∷ []
requested previous url (target ∷ targets) =
    let rest = requested (suc previous) target targets in
    if is_follow (redirect_policy previous target) then url ∷ rest else url ∷ []

-- A URL that the public client may reach.
abbrev pub Reached : Url → Type 0
Reached url = (is_http url.scheme ≡ true) × (host_allowed url ≡ true)

followed :
    (previous : ℕ) (url : Url) (many http allowed : Bool)
    → leb 5 previous ≡ many
    → is_follow
        (if many then too_many_redirects else if not http || not allowed then blocked else follow)
      ≡ true
    → (previous < 5) × (http ≡ true) × (allowed ≡ true)
followed previous url true http allowed m h = absurd (cc)
followed previous url false true true m h = (ground arith, refl, refl)
followed previous url false true false m h = absurd (cc)
followed previous url false false allowed m h = absurd (cc)

abbrev Guarded : ℕ → List Url → Type 0
Guarded previous urls = All Reached urls × (previous + length urls ≤ 6)

Guarded-step :
    (previous : ℕ) (url target : Url) (rest : List Url) (b : Bool)
    → previous ≤ 5
    → Reached url
    → is_follow (redirect_policy previous target) ≡ b
    → (previous < 5 → Reached target → Guarded (suc previous) rest)
    → Guarded previous (if b then url ∷ rest else url ∷ [])
unfolding redirect_policy
Guarded-step previous url target rest false l r e g = ((r, tt), omega (arith, l))
Guarded-step previous url target rest true l r e g =
    let (small, http, allowed) =
      followed previous target (leb 5 previous) (is_http target.scheme) (host_allowed target) refl
        e in
    let (all, n) = g small (http, allowed) in ((r, all), omega (arith, n))

requested-Guarded :
    (previous : ℕ) (url : Url) (targets : List Url)
    → previous ≤ 5
    → Reached url
    → Guarded previous (requested previous url targets)
unfolding requested
requested-Guarded previous url [] l r = ((r, tt), omega (arith, l))
requested-Guarded previous url (target ∷ targets) l r =
    Guarded-step previous url target (requested (suc previous) target targets)
      (is_follow (redirect_policy previous target)) l r refl
      λ small reached.
        requested-Guarded (suc previous) target targets (omega (arith, small)) reached

-- From an allowed http or https URL, the public client requests only http and https URLs
-- whose host is allowed, and at most five of them, wherever the answers redirect to.
pub requested-Reached :
    (url : Url) (targets : List Url)
    → is_http url.scheme ≡ true
    → host_allowed url ≡ true
    → All Reached (requested 1 url targets) × (length (requested 1 url targets) ≤ 5)
requested-Reached url targets h a =
    let (all, l) = requested-Guarded 1 url targets (omega arith) (h, a) in (all, omega (arith, l))
