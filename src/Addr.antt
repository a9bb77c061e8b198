-- ===== src/Addr.antt =====
-- The parts of std::net that the crates use: addresses as big-endian numbers, their octets and
-- 16-bit segments; the classification methods of the two address types are in V4 and V6.
pub mod V4
pub mod V6
pub mod Ip
pub mod Parse
pub mod Display
use wg_wrapper.Base.{ℕ, ◌/◌, ◌%◌, ◌^◌, ◌<◌}

-- An Ipv4Addr is a number below 2 ^ 32, an Ipv6Addr one below 2 ^ 128.
pub data IpAddr : Type 0 where
  v4 : ℕ → IpAddr
  v6 : ℕ → IpAddr

abbrev pub IsAddr : IpAddr → Type 0
IsAddr (v4 a) = a < 2 ^ 32
IsAddr (v6 a) = a < 2 ^ 128

pub record SocketAddr : Type 0 where
  pub ip : IpAddr
  pub port : ℕ

-- Ipv4Addr::octets()[i], as far as the code indexes it
abbrev pub octet_0 : ℕ → ℕ
octet_0 a = a / 2 ^ 24

abbrev pub octet_1 : ℕ → ℕ
octet_1 a = a / 2 ^ 16 % 256

abbrev pub octet_2 : ℕ → ℕ
octet_2 a = a / 2 ^ 8 % 256

abbrev pub octet_3 : ℕ → ℕ
octet_3 a = a % 256

-- Ipv6Addr::segments()[0]
abbrev pub segment_0 : ℕ → ℕ
segment_0 a = a / 2 ^ 112
