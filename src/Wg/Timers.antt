-- ===== src/Wg/Timers.antt =====
-- The calls that send: `encapsulate` and `update_timers`, and the age of the last handshake.
pub mod Keys
use wg_wrapper.Base.{
  ℕ, suc, ◌+◌, ◌-◌, List, [], ◌∷◌, ◌++◌, Bytes, Option, none, some, get_elem?, set, leb,
  if◌then◌else◌,
}
use wg_wrapper.Noise.{
  Noise, TunnResult, finished, failed, write_to_network, write_to_tunnel_v4, write_to_tunnel_v6,
}
use wg_wrapper.Wg.{Peer, Wg}

-- what goes to the network
abbrev pub sent : TunnResult → List Bytes
sent (write_to_network b) = b ∷ []
sent finished = []
sent failed = []
sent (write_to_tunnel_v4 b) = []
sent (write_to_tunnel_v6 b) = []

tagged : ℕ → TunnResult → List (ℕ × Bytes)
tagged i (write_to_network b) = (i, b) ∷ []
tagged i finished = []
tagged i failed = []
tagged i (write_to_tunnel_v4 b) = []
tagged i (write_to_tunnel_v6 b) = []

module _ (noise : Noise) where
  open noise use {Tunn, Limiter}

  encapsulate_with : Wg noise → ℕ → Option (Peer noise) → Bytes → List Bytes → Wg noise × List Bytes
  encapsulate_with wg idx none packet net_out = (wg, net_out)
  encapsulate_with wg idx (some peer) packet net_out =
      let (tunn, answer) = noise.encapsulate peer.tunn packet in
      (record wg { peers = set wg.peers idx (record peer { tunn = tunn }) }, net_out ++ sent answer)

  unfoldable pub encapsulate : Wg noise → ℕ → Bytes → List Bytes → Wg noise × List Bytes
  unfolding encapsulate_with
  encapsulate wg idx packet net_out =
      encapsulate_with wg idx (get_elem? wg.peers idx) packet net_out

  -- The loop over `peers.iter_mut().enumerate()`.
  timers_from : ℕ → List (Peer noise) → List (Peer noise) × List (ℕ × Bytes)
  unfolding tagged
  timers_from i [] = ([], [])
  timers_from i (peer ∷ peers) =
      let (tunn, answer) = noise.update_timers peer.tunn in
      let (rest, out) = timers_from (suc i) peers in
      (record peer { tunn = tunn } ∷ rest, tagged i answer ++ out)

  reset_if_due : Wg noise → ℕ → Wg noise
  reset_if_due wg now =
      if leb 1000 (now - wg.last_reset)
      then record wg { limiter = noise.reset_count wg.limiter; last_reset = now }
      else wg

  unfoldable pub update_timers : Wg noise → ℕ → List (ℕ × Bytes) → Wg noise × List (ℕ × Bytes)
  unfolding timers_from reset_if_due
  update_timers wg now out =
      let ready = reset_if_due wg now in
      let (peers, added) = timers_from 0 ready.peers in
      (record ready { peers = peers }, out ++ added)

  since : Option (Peer noise) → Option ℕ
  since none = none
  since (some peer) = noise.time_since_last_handshake peer.tunn

  unfoldable pub time_since_last_handshake : Wg noise → ℕ → Option ℕ
  unfolding since
  time_since_last_handshake wg idx = since (get_elem? wg.peers idx)
