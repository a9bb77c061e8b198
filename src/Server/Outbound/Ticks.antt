-- ===== src/Server/Outbound/Ticks.antt =====
-- The timer task sends each session's datagram to the endpoint of its own peer.
use wg_wrapper.Base.{
  ℕ, suc, ◌+◌, ◌≡◌, refl, ap, ◌∙◌, subst, List, [], ◌∷◌, ◌++◌, map, Bytes, Option, none, some,
  arith, get_elem?,
}
use wg_wrapper.Addr.{SocketAddr}
use wg_wrapper.IpNet.{NetOps}
use wg_wrapper.Noise.{Noise}
use wg_wrapper.Rst.{Etherparse}
use wg_wrapper.Server.Inbound.{State, send_all}
use wg_wrapper.Server.Outbound.{addressed, on_tick}
use wg_wrapper.Wg.Timers.{sent, update_timers}
use wg_wrapper.Wg.Timers.Keys.{
  SamePeers, sending-SamePeers, update_timers-due, due_from, endpoints, endpoint-same, endpoint-eq,
}
use wg_wrapper.Wg.{Peer, Wg, endpoint, endpoint_of}

module _ (ops : NetOps) (noise : Noise) (lib : Etherparse) where
  -- what the timer of one peer's session sends
  abbrev pub timed : Peer noise → List (SocketAddr × Bytes)
  timed p = elim p.endpoint [
    | none ↦ []
    | some to ↦ send_all ops noise lib to (sent (noise.update_timers p.tunn).1)
  ]

  abbrev pub all_timed : List (Peer noise) → List (SocketAddr × Bytes)
  all_timed [] = []
  all_timed (p ∷ ps) = timed p ++ all_timed ps

  addressed_one :
      (wg : Wg noise) (i : ℕ) (ds : List Bytes) (rest : List (ℕ × Bytes)) (o : Option SocketAddr)
      → endpoint noise wg i ≡ o
      → addressed ops noise lib wg (map (λ d. (i, d)) ds ++ rest)
        ≡ elim o [ none ↦ [] | some to ↦ send_all ops noise lib to ds ]
          ++ addressed ops noise lib wg rest
  unfolding addressed
  addressed_one wg i [] rest none e = refl
  addressed_one wg i [] rest (some to) e = refl
  addressed_one wg i (d ∷ ds) rest none e = rw (e, addressed) (addressed_one wg i ds rest none e)
  addressed_one wg i (d ∷ ds) rest (some to) e =
      rw (e, addressed) (ap (◌∷◌ (to, d)) (addressed_one wg i ds rest (some to) e))

  addressed-due :
      (wg : Wg noise) (i : ℕ) (ps : List (Peer noise))
      → ((j : ℕ) → endpoint noise wg (j + i) ≡ endpoint_of noise (get_elem? ps j))
      → addressed ops noise lib wg (due_from noise i ps) ≡ all_timed ps
  unfolding addressed endpoint_of
  addressed-due wg i [] at = refl
  addressed-due wg i (p ∷ ps) at =
      addressed_one wg i (sent (noise.update_timers p.tunn).1) (due_from noise (suc i) ps)
        p.endpoint (subst (λ k. endpoint noise wg k ≡ p.endpoint) (omega arith) (at 0))
      ∙ ap (◌++◌ (timed p)) (
          addressed-due wg (suc i) ps (λ j.
            subst (λ k. endpoint noise wg k ≡ endpoint_of noise (get_elem? ps j)) (omega arith)
              (at (suc j))))

  -- A tick sends, for each peer with a known endpoint and in the order of the peers, what the timer of
  -- that peer's own session made, to that endpoint; it changes no key and no endpoint.
  pub on_tick-timed :
      (now : ℕ) (s : State ops noise lib)
      → ((on_tick ops noise lib now s).sent ≡ s.sent ++ all_timed s.wg.peers)
        × SamePeers noise s.wg (on_tick ops noise lib now s).wg
  unfolding on_tick
  on_tick-timed now s =
      let same = (sending-SamePeers noise s.wg 0 now [] [] []).1 in
      let wg = (update_timers noise s.wg now []).0 in
      (
        ap (◌++◌ s.sent) (
            ap (addressed ops noise lib wg) (update_timers-due noise s.wg now)
            ∙ addressed-due wg 0 s.wg.peers (λ j. found wg j same.1)),
        same,
      )
    where
      found :
          (wg : Wg noise) (j : ℕ)
          → ◌≡◌ (endpoints noise wg.peers) (endpoints noise s.wg.peers)
          → endpoint noise wg (j + 0) ≡ endpoint_of noise (get_elem? s.wg.peers j)
      found wg j e =
          subst (λ k. endpoint noise wg k ≡ endpoint_of noise (get_elem? s.wg.peers j))
            (omega arith) (endpoint-same noise s.wg wg j e ∙ endpoint-eq noise s.wg j)
