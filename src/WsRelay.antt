-- ===== src/WsRelay.antt =====
-- crates/wsrelay/src/lib.rs: WireGuard datagrams over WebSocket. Times are in milliseconds.
pub mod ClientPeer
pub mod Mapping
pub mod Conn
use wg_wrapper.Base.{ℕ}

abbrev pub max_datagram : ℕ
max_datagram = 65535

-- IDLE
abbrev pub idle_after : ℕ
idle_after = 300000

abbrev pub backoff_min : ℕ
backoff_min = 250

abbrev pub backoff_max : ℕ
backoff_max = 8000

-- QUEUE, of one mapping
abbrev pub queue_capacity : ℕ
queue_capacity = 1024
