-- ===== src/Addr/V6.antt =====
-- std::net::Ipv6Addr.
use wg_wrapper.Base.{ℕ, ◌/◌, ◌%◌, ◌^◌, Bool, Option, none, some, ◌==◌, if◌then◌else◌}

abbrev pub is_loopback : ℕ → Bool
is_loopback a = a == 1

abbrev pub is_unspecified : ℕ → Bool
is_unspecified a = a == 0

abbrev pub is_multicast : ℕ → Bool
is_multicast a = a / 2 ^ 120 == 255

-- ::ffff:a.b.c.d
abbrev pub to_ipv4_mapped : ℕ → Option ℕ
to_ipv4_mapped a = if a / 2 ^ 32 == 0xffff then some (a % 2 ^ 32) else none
