-- ===== src/Addr/V4.antt =====
-- std::net::Ipv4Addr.
use wg_wrapper.Base.{ℕ, ◌^◌, ◌-◌, Bool, ◌&&◌, ◌==◌, leb}
use wg_wrapper.Addr.{octet_0, octet_1}

abbrev pub is_loopback : ℕ → Bool
is_loopback a = octet_0 a == 127

abbrev pub is_unspecified : ℕ → Bool
is_unspecified a = a == 0

abbrev pub is_multicast : ℕ → Bool
is_multicast a = leb 224 (octet_0 a) && leb (octet_0 a) 239

abbrev pub is_broadcast : ℕ → Bool
is_broadcast a = a == 2 ^ 32 - 1

abbrev pub is_link_local : ℕ → Bool
is_link_local a = octet_0 a == 169 && octet_1 a == 254
