-- ===== src/Isolation.antt =====
-- crates/server/src/net.rs: the isolation gate `allowed_dst`.
pub mod Blocks
pub mod Sound
use wg_wrapper.Base.{
  ℕ, ◌/◌, Bool, true, false, not, ◌&&◌, ◌||◌, Option, none, some, bit_and, ◌==◌, if◌then◌else◌,
}
use wg_wrapper.Addr.{IpAddr, v4, v6, octet_0, octet_1, octet_2, segment_0}
use wg_wrapper.Addr.V4
use wg_wrapper.Addr.V6
use wg_wrapper.IpNet.{NetOps}

-- The first test of the IPv4 arm: never reachable.
unfoldable pub refused_v4 : ℕ → Bool
refused_v4 a =
    V4.is_loopback a
    || V4.is_unspecified a
    || V4.is_multicast a
    || V4.is_broadcast a
    || V4.is_link_local a
    || octet_0 a == 0

-- The second: RFC1918, CGNAT, IETF protocol assignments, benchmarking, and 240/4.
unfoldable pub private_v4 : ℕ → Bool
private_v4 a =
    octet_0 a == 10
    || octet_0 a == 172 && bit_and (octet_1 a) 0xf0 == 16
    || octet_0 a == 192 && octet_1 a == 168
    || octet_0 a == 100 && bit_and (octet_1 a) 0xc0 == 64
    || octet_0 a == 192 && octet_1 a == 0 && octet_2 a == 0
    || octet_0 a == 198 && bit_and (octet_1 a) 0xfe == 18
    || bit_and (octet_0 a) 0xf0 == 240

unfoldable pub refused_v6 : ℕ → Bool
refused_v6 a =
    V6.is_loopback a
    || V6.is_unspecified a
    || V6.is_multicast a
    || bit_and (segment_0 a) 0xffc0 == 0xfe80

unfoldable pub private_v6 : ℕ → Bool
private_v6 a = bit_and (segment_0 a) 0xfe00 == 0xfc00

module _ (ops : NetOps) where
  open ops use {Net, contains}

  -- The call on an IPv4 address, also that on the inner address of an IPv4-mapped one.
  unfoldable pub allowed_dst_v4 : Net → ℕ → Bool → Bool
  allowed_dst_v4 wg_net a allow_private =
      if contains wg_net (v4 a)
      then false
      else if refused_v4 a
      then false
      else allow_private || not (private_v4 a)

  unfoldable pub allowed_dst : Net → IpAddr → Bool → Bool
  unfolding allowed_dst_v4
  allowed_dst wg_net (v4 a) allow_private = allowed_dst_v4 wg_net a allow_private
  allowed_dst wg_net (v6 a) allow_private =
      if contains wg_net (v6 a) then false else elim (V6.to_ipv4_mapped a) [
        | some inner ↦ allowed_dst_v4 wg_net inner allow_private
        | none ↦ if refused_v6 a then false else allow_private || not (private_v6 a)
      ]
