-- ===== src/Server/Inbound.antt =====
-- The task from the peers to the stack: decrypt, enforce cryptokey routing and isolation, hand up.
pub mod Gate
pub mod Isolated
use wg_wrapper.Base.{
  ℕ, Bool, true, false, not, ◌&&◌, List, [], ◌∷◌, ◌++◌, map, Bytes, Option, none, some, length, ltb,
  ◌==◌, if◌then◌else◌,
}
use wg_wrapper.Addr.{IpAddr, SocketAddr}
use wg_wrapper.IpNet.{NetOps}
use wg_wrapper.Isolation.{allowed_dst}
use wg_wrapper.Keys.{src_address}
use wg_wrapper.Noise.{Noise}
use wg_wrapper.Routing.{peer_for}
use wg_wrapper.Rst.{Etherparse, tcp_rst}
use wg_wrapper.Server.{queue_capacity}
use wg_wrapper.Wg.Timers.{encapsulate}
use wg_wrapper.Wg.{Wg, Received, recv_from_network}

abbrev routed_to : Option ℕ → ℕ → Bool
routed_to none idx = false
routed_to (some j) idx = j == idx

module _ (ops : NetOps) (noise : Noise) (lib : Etherparse) where
  open ops use {Net}

  -- What the task sees: the endpoint, what the socket has sent, and the queue to the stack.
  pub record State : Type 0 where
    pub wg : Wg noise
    pub sent : List (SocketAddr × Bytes)
    pub to_stack : List Bytes

  -- The settings that the task captures.
  pub record Settings : Type 0 where
    pub wg_net : Net
    pub allow_private : Bool
    pub allowed : List (Net × ℕ)

  abbrev pub send_all : SocketAddr → List Bytes → List (SocketAddr × Bytes)
  send_all to = map (λ d. (to, d))

  -- to_stack.try_send
  enqueue : State → Bytes → State
  enqueue s packet =
      if ltb (length s.to_stack) queue_capacity
      then record s { to_stack = s.to_stack ++ packet ∷ [] }
      else s

  -- The reset for a forbidden destination, encrypted for the peer and sent to where it came from.
  refuse : State → SocketAddr → ℕ → Option Bytes → State
  refuse s from idx none = s
  refuse s from idx (some rst) =
      let (wg, net_out) = encapsulate noise s.wg idx rst [] in
      record s { wg = wg; sent = s.sent ++ send_all from net_out }

  -- One packet of `ip_out` with its addresses.
  gate : Settings → State → SocketAddr → ℕ → Bytes → Option IpAddr → Option IpAddr → State
  unfolding enqueue refuse
  gate cfg s from idx packet (some src) (some dst) =
      if not (routed_to (peer_for ops cfg.allowed src) idx)
      then s
      else if not (allowed_dst ops cfg.wg_net dst cfg.allow_private)
      then refuse s from idx (tcp_rst lib packet)
      else enqueue s packet
  gate cfg s from idx packet (some src) none = s
  gate cfg s from idx packet none dst = s

  pub on_packet : Settings → State → SocketAddr → ℕ → Bytes → State
  unfolding gate
  on_packet cfg s from idx packet =
      gate cfg s from idx packet (src_address packet) (noise.dst_address packet)

  pub on_packets : Settings → State → SocketAddr → ℕ → List Bytes → State
  unfolding on_packet
  on_packets cfg s from idx [] = s
  on_packets cfg s from idx (packet ∷ packets) =
      on_packets cfg (on_packet cfg s from idx packet) from idx packets

  hand_up : Settings → State → SocketAddr → List Bytes → Option ℕ → State
  unfolding on_packets
  hand_up cfg s from packets none = s
  hand_up cfg s from packets (some idx) = on_packets cfg s from idx packets

  after_receive : Settings → State → SocketAddr → Option (Received noise) → Option State
  unfolding hand_up
  after_receive cfg s from none = none
  after_receive cfg s from (some r) = some (
      hand_up cfg (record s { wg = r.wg; sent = s.sent ++ send_all from r.net_out }) from r.ip_out
        r.peer)

  -- One round of the task, for a datagram of the socket.
  unfoldable pub on_datagram : ℕ → Settings → State → SocketAddr → Bytes → Option State
  unfolding after_receive
  on_datagram fuel cfg s from datagram =
      after_receive cfg s from (recv_from_network noise fuel s.wg from datagram [] [])
