-- ===== src/Flow.antt =====
-- crates/server/src/flow.rs: what becomes of an accepted flow.
pub mod UdpHeader
pub mod Dns
pub mod Relay
pub mod Associate
use wg_wrapper.Base.{ℕ, ◌-◌}

-- An IPv4 header and a UDP header.
abbrev pub udp_overhead : ℕ
udp_overhead = 28

-- The largest payload of a datagram to the peer; subtraction saturates.
abbrev pub cap : ℕ → ℕ
cap mtu = mtu - udp_overhead
