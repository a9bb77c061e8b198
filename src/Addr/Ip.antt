-- ===== src/Addr/Ip.antt =====
-- std::net::IpAddr::is_unspecified.
use wg_wrapper.Base.{Bool}
use wg_wrapper.Addr.{IpAddr, v4, v6}
use wg_wrapper.Addr.V4
use wg_wrapper.Addr.V6

abbrev pub is_unspecified : IpAddr → Bool
is_unspecified (v4 a) = V4.is_unspecified a
is_unspecified (v6 a) = V6.is_unspecified a
