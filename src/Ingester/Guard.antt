-- ===== src/Ingester/Guard.antt =====
-- grpc_ingester/src/metadata/guard.rs: the IPv4 addresses that a download may reach. The tests of
-- the standard library's Ipv4Addr are written out on the four octets.
pub mod Ranges
pub mod Redirects
use das.Prelude.{ℕ, Bool, not, ◌&&◌, ◌||◌, ◌==◌, leb, bit_and}

pub record Ipv4Addr : Type 0 where
  pub o0 : ℕ
  pub o1 : ℕ
  pub o2 : ℕ
  pub o3 : ℕ

module _ (o : Ipv4Addr) where
  abbrev pub is_unspecified : Bool
  is_unspecified = o.o0 == 0 && o.o1 == 0 && o.o2 == 0 && o.o3 == 0

  abbrev pub is_loopback : Bool
  is_loopback = o.o0 == 127

  abbrev pub is_private : Bool
  is_private =
      o.o0 == 10 || (o.o0 == 172 && bit_and o.o1 0xf0 == 16) || (o.o0 == 192 && o.o1 == 168)

  abbrev pub is_link_local : Bool
  is_link_local = o.o0 == 169 && o.o1 == 254

  abbrev pub is_broadcast : Bool
  is_broadcast = o.o0 == 255 && o.o1 == 255 && o.o2 == 255 && o.o3 == 255

  abbrev pub is_documentation : Bool
  is_documentation =
      (o.o0 == 192 && o.o1 == 0 && o.o2 == 2)
      || (o.o0 == 198 && o.o1 == 51 && o.o2 == 100)
      || (o.o0 == 203 && o.o1 == 0 && o.o2 == 113)

  abbrev pub is_multicast : Bool
  is_multicast = bit_and o.o0 0xf0 == 224

  unfoldable pub is_global_v4 : Bool
  is_global_v4 = not (
      is_unspecified
      || is_loopback
      || is_private
      || is_link_local
      || is_broadcast
      || is_documentation
      || is_multicast
      || o.o0 == 0
      || (o.o0 == 100 && bit_and o.o1 0xc0 == 64)
      || (o.o0 == 192 && o.o1 == 0 && o.o2 == 0)
      || (o.o0 == 198 && bit_and o.o1 0xfe == 18)
      || leb 240 o.o0)
