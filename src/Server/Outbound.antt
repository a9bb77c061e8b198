-- ===== src/Server/Outbound.antt =====
-- The task from the stack to the peers, and the one that keeps the sessions' timers.
pub mod Owner
pub mod Ticks
use wg_wrapper.Base.{ℕ, List, [], ◌∷◌, ◌++◌, Bytes, Option, none, some}
use wg_wrapper.Addr.{IpAddr, SocketAddr}
use wg_wrapper.IpNet.{NetOps}
use wg_wrapper.Noise.{Noise}
use wg_wrapper.Routing.{peer_for}
use wg_wrapper.Rst.{Etherparse}
use wg_wrapper.Server.Inbound.{State, send_all}
use wg_wrapper.Wg.Timers.{encapsulate, update_timers}
use wg_wrapper.Wg.{Wg, endpoint}

module _ (ops : NetOps) (noise : Noise) (lib : Etherparse) where
  open ops use {Net}

  -- Nothing is sent for a peer whose endpoint is not known.
  pub send_to :
      State ops noise lib → Option SocketAddr → Wg noise → List Bytes → State ops noise lib
  send_to s none wg net_out = record s { wg = wg }
  send_to s (some to) wg net_out = record s {
    wg = wg;
    sent = s.sent ++ send_all ops noise lib to net_out;
  }

  pub to_peer : State ops noise lib → Bytes → Option ℕ → State ops noise lib
  unfolding send_to
  to_peer s packet none = s
  to_peer s packet (some idx) =
      let (wg, net_out) = encapsulate noise s.wg idx packet [] in
      send_to s (endpoint noise wg idx) wg net_out

  pub route : List (Net × ℕ) → State ops noise lib → Bytes → Option IpAddr → State ops noise lib
  unfolding to_peer
  route allowed s packet none = s
  route allowed s packet (some dst) = to_peer s packet (peer_for ops allowed dst)

  -- One round of the task, for a packet of the stack.
  unfoldable pub on_reply : List (Net × ℕ) → State ops noise lib → Bytes → State ops noise lib
  unfolding route
  on_reply allowed s packet = route allowed s packet (noise.dst_address packet)

  -- The datagrams of the timers, each with the endpoint of its peer.
  pub addressed : Wg noise → List (ℕ × Bytes) → List (SocketAddr × Bytes)
  addressed wg [] = []
  addressed wg ((i, d) ∷ out) = elim (endpoint noise wg i) [
    | none ↦ addressed wg out
    | some to ↦ (to, d) ∷ addressed wg out
  ]

  -- One tick of the timer task.
  unfoldable pub on_tick : ℕ → State ops noise lib → State ops noise lib
  unfolding addressed
  on_tick now s =
      let (wg, out) = update_timers noise s.wg now [] in
      record s { wg = wg; sent = s.sent ++ addressed wg out }
