-- ===== src/Server.antt =====
-- crates/server/src/lib.rs: the loop over the peers in `start`, and the tasks that it spawns.
pub mod Setup
pub mod Inbound
pub mod Outbound
pub mod Flows
use wg_wrapper.Base.{ℕ}

-- Concurrent proxied flows, in total and for each peer.
abbrev pub max_flows : ℕ
max_flows = 4096

abbrev pub max_flows_per_peer : ℕ
max_flows_per_peer = 512

-- Packets in flight between the tunnel and the stack, in either direction.
abbrev pub queue_capacity : ℕ
queue_capacity = 4096
