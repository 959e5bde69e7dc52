-- ===== src/Ingester/Guard/Ranges.antt =====
-- The octet tests of Guard.antt as ranges of 32-bit addresses.
use das.Prelude.{
  ℕ, zero, suc, ◌+◌, ◌*◌, ◌/◌, ◌<◌, ◌≡◌, refl, sym, ap, ◌∙◌, subst, inl, inr, Bool-cases, Bool,
  true, false, not, ◌&&◌, ◌||◌, ◌==◌, ltb, leb, bit_and, arith,
}
use das.Ingester.Guard.{Ipv4Addr, is_global_v4}

-- Two Booleans are the same.
abbrev same : Bool → Bool → Bool
same true b = b
same false b = not b

abbrev all_below : ℕ → (ℕ → Bool) → Bool
all_below zero p = true
all_below (suc n) p = p n && all_below n p

and_left : (a b : Bool) → (a && b) ≡ true → a ≡ true
and_left a b h = ground arith

and_right : (a b : Bool) → (a && b) ≡ true → b ≡ true
and_right a b h = ground arith

all_below_lem : (n : ℕ) (p : ℕ → Bool) (k : ℕ) → all_below n p ≡ true → k < n → p k ≡ true
all_below_lem zero p k h l = absurd (omega arith)
all_below_lem (suc n) p k h l = elim (Bool-cases (ltb k n)) [
  | inl g ↦ all_below_lem n p k (and_right (p n) (all_below n p) h) (ground arith)
  | inr g ↦ subst (λ x. p x ≡ true) (ground arith) (and_left (p n) (all_below n p) h)
]

same_lem : (a b : Bool) → same a b ≡ true → a ≡ b
same_lem true true h = refl
same_lem true false h = absurd (cc)
same_lem false true h = absurd (cc)
same_lem false false h = refl

and_f0_16 : (b : ℕ) → b < 256 → (bit_and b 0xf0 == 16) ≡ (b / 16 == 1)
and_f0_16 b h =
    same_lem _ _ (all_below_lem 256 (λ x. same (bit_and x 0xf0 == 16) (x / 16 == 1)) b refl h)

and_f0_224 : (b : ℕ) → b < 256 → (bit_and b 0xf0 == 224) ≡ (b / 16 == 14)
and_f0_224 b h =
    same_lem _ _ (all_below_lem 256 (λ x. same (bit_and x 0xf0 == 224) (x / 16 == 14)) b refl h)

and_c0_64 : (b : ℕ) → b < 256 → (bit_and b 0xc0 == 64) ≡ (b / 64 == 1)
and_c0_64 b h =
    same_lem _ _ (all_below_lem 256 (λ x. same (bit_and x 0xc0 == 64) (x / 64 == 1)) b refl h)

and_fe_18 : (b : ℕ) → b < 256 → (bit_and b 0xfe == 18) ≡ (b / 2 == 9)
and_fe_18 b h =
    same_lem _ _ (all_below_lem 256 (λ x. same (bit_and x 0xfe == 18) (x / 2 == 9)) b refl h)

-- The address as one number.
abbrev pub address : Ipv4Addr → ℕ
address o = ((o.o0 * 256 + o.o1) * 256 + o.o2) * 256 + o.o3

-- The address is in the range that begins at `base` and has `size` addresses, a power of two.
pub is_in : ℕ → ℕ → ℕ → Bool
is_in size base a = a / size == base / size

abbrev pub ip : ℕ → ℕ → ℕ → ℕ → ℕ
ip a b c d = ((a * 256 + b) * 256 + c) * 256 + d

-- The addresses that are not global, as ranges: 0.0.0.0/32, 127.0.0.0/8, the private ranges,
-- 169.254.0.0/16, 255.255.255.255/32, the documentation ranges, 224.0.0.0/4, 0.0.0.0/8,
-- 100.64.0.0/10, 192.0.0.0/24, 198.18.0.0/15 and 240.0.0.0/4.
pub is_special : ℕ → Bool
is_special a =
    is_in 1 (ip 0 0 0 0) a
    || is_in 16_777_216 (ip 127 0 0 0) a
    || (is_in 16_777_216 (ip 10 0 0 0) a
        || is_in 1_048_576 (ip 172 16 0 0) a
        || is_in 65_536 (ip 192 168 0 0) a)
    || is_in 65_536 (ip 169 254 0 0) a
    || is_in 1 (ip 255 255 255 255) a
    || (is_in 256 (ip 192 0 2 0) a || is_in 256 (ip 198 51 100 0) a || is_in 256 (ip 203 0 113 0) a)
    || is_in 268_435_456 (ip 224 0 0 0) a
    || is_in 16_777_216 (ip 0 0 0 0) a
    || is_in 4_194_304 (ip 100 64 0 0) a
    || is_in 256 (ip 192 0 0 0) a
    || is_in 131_072 (ip 198 18 0 0) a
    || is_in 268_435_456 (ip 240 0 0 0) a

infixl 5 ◌or◌
◌or◌ : {p p' q q' : Bool} → p ≡ p' → q ≡ q' → (p || q) ≡ (p' || q')
◌or◌ {p' = p'} {q = q} h g = ap (λ x. x || q) h ∙ ap (λ y. p' || y) g

module _ (a b c d : ℕ) (ha : a < 256) (hb : b < 256) (hc : c < 256) (hd : d < 256) where
  abbrev o : Ipv4Addr
  o = record { o0 = a; o1 = b; o2 = c; o3 = d }

  in_8 : (v : ℕ) → is_in 16_777_216 (v * 16_777_216) (address o) ≡ (a == v)
  unfolding is_in
  in_8 v = ground arith

  in_16 :
      (v w : ℕ) → w < 256 → is_in 65_536 ((v * 256 + w) * 65_536) (address o) ≡ (a == v && b == w)
  unfolding is_in
  in_16 v w h = ground arith

  in_24 :
      (u v w : ℕ)
      → v < 256
      → w < 256
      → is_in 256 (((u * 256 + v) * 256 + w) * 256) (address o) ≡ (a == u && b == v && c == w)
  unfolding is_in
  in_24 u v w h g = ground arith

  in_32 :
      (u v w x : ℕ)
      → v < 256
      → w < 256
      → x < 256
      → is_in 1 (((u * 256 + v) * 256 + w) * 256 + x) (address o)
        ≡ (a == u && b == v && c == w && d == x)
  unfolding is_in
  in_32 u v w x h g k = ground arith

  in_10 : is_in 4_194_304 1_681_915_904 (address o) ≡ (a == 100 && bit_and b 0xc0 == 64)
  unfolding is_in
  in_10 = rw (and_c0_64 b hb) (ground arith)

  in_12 : is_in 1_048_576 2_886_729_728 (address o) ≡ (a == 172 && bit_and b 0xf0 == 16)
  unfolding is_in
  in_12 = rw (and_f0_16 b hb) (ground arith)

  in_15 : is_in 131_072 3_323_068_416 (address o) ≡ (a == 198 && bit_and b 0xfe == 18)
  unfolding is_in
  in_15 = rw (and_fe_18 b hb) (ground arith)

  in_4 : is_in 268_435_456 3_758_096_384 (address o) ≡ (bit_and a 0xf0 == 224)
  unfolding is_in
  in_4 = rw (and_f0_224 a ha) (ground arith)

  in_top : is_in 268_435_456 4_026_531_840 (address o) ≡ leb 240 a
  unfolding is_in
  in_top = ground arith

  octets_special : is_global_v4 o ≡ not (is_special (address o))
  unfolding is_global_v4 is_special
  octets_special = ap not (
      sym (
        in_32 0 0 0 0 (omega arith) (omega arith) (omega arith)
        or in_8 127
        or (in_8 10 or in_12 or in_16 192 168 (omega arith))
        or in_16 169 254 (omega arith)
        or in_32 255 255 255 255 (omega arith) (omega arith) (omega arith)
        or (in_24 192 0 2 (omega arith) (omega arith)
            or in_24 198 51 100 (omega arith) (omega arith)
            or in_24 203 0 113 (omega arith) (omega arith))
        or in_4
        or in_8 0
        or in_10
        or in_24 192 0 0 (omega arith) (omega arith)
        or in_15
        or in_top))

-- An IPv4 address passes the filter exactly if it lies in none of the special ranges.
pub is_global_v4_lem :
    (addr : Ipv4Addr)
    → addr.o0 < 256
    → addr.o1 < 256
    → addr.o2 < 256
    → addr.o3 < 256
    → is_global_v4 addr ≡ not (is_special (address addr))
is_global_v4_lem addr = octets_special addr.o0 addr.o1 addr.o2 addr.o3
