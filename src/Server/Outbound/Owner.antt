-- ===== src/Server/Outbound/Owner.antt =====
-- A reply goes to the peer that owns its destination, and timer datagrams go to their peers.
use mathlib.Core.List.{append-nil}
use wg_wrapper.Base.{
  ℕ, zero, suc, ◌≡◌, ◌≢◌, refl, sym, ap, ◌∙◌, subst, true, List, [], ◌∷◌, ◌++◌, Bytes, Option, none,
  some, Memᴰ, get_elem?, get_elem?-set, set, inl, inr,
}
use wg_wrapper.Addr.{IpAddr, SocketAddr}
use wg_wrapper.Config.{PeerConfig}
use wg_wrapper.IpNet.{NetOps}
use wg_wrapper.Noise.{Noise}
use wg_wrapper.Rst.{Etherparse}
use wg_wrapper.Server.Inbound.{State, send_all}
use wg_wrapper.Server.Outbound.{send_to, to_peer, route, on_reply}
use wg_wrapper.Server.Setup.Routes.{RoutesTo}
use wg_wrapper.Wg.Timers.Keys.{encapsulate-none, encapsulate-some}
use wg_wrapper.Wg.Timers.{encapsulate, sent}
use wg_wrapper.Wg.{Peer, Wg, endpoint, endpoint_of}

module _ (ops : NetOps) (noise : Noise) (lib : Etherparse) where
  open ops use {Net, contains}

  abbrev endpoint_or_none : Option (Peer noise) → Option SocketAddr
  endpoint_or_none none = none
  endpoint_or_none (some p) = p.endpoint

  -- What one peer gets of a packet: the datagrams of its session, at its endpoint.
  abbrev pub datagrams : Option (Peer noise) → Bytes → List (SocketAddr × Bytes)
  datagrams none packet = []
  datagrams (some p) packet = elim p.endpoint [
    | none ↦ []
    | some to ↦ send_all ops noise lib to (sent (noise.encapsulate p.tunn packet).1)
  ]

  -- Only peer k gets something, and only its session moves on.
  pub record Delivers (k : ℕ) (packet : Bytes) (s s' : State ops noise lib) : Type 0 where
    pub sends : s'.sent ≡ s.sent ++ datagrams (get_elem? s.wg.peers k) packet
    pub others : (j : ℕ) → j ≢ k → get_elem? s'.wg.peers j ≡ get_elem? s.wg.peers j
    pub queue : s'.to_stack ≡ s.to_stack

  get_elem?-set_same :
      (ps : List (Peer noise)) (k : ℕ) (p new : Peer noise)
      → get_elem? ps k ≡ some p
      → get_elem? (set ps k new) k ≡ some new
  get_elem?-set_same [] k p new e = cc
  get_elem?-set_same (q ∷ ps) zero p new e = refl
  get_elem?-set_same (q ∷ ps) (suc k) p new e = get_elem?-set_same ps k p new e

  get_elem?-set_other :
      (ps : List (Peer noise)) (k j : ℕ) (new : Peer noise)
      → j ≢ k
      → get_elem? (set ps k new) j ≡ get_elem? ps j
  get_elem?-set_other ps k j new ne = elim (get_elem?-set ps k j new) [
    | inl same ↦ same
    | inr (e, _) ↦ absurd (ne e)
  ]

  -- The session of peer k has moved on to p', which has its endpoint.
  send_to-Delivers :
      (k : ℕ) (packet : Bytes) (s : State ops noise lib) (p p' : Peer noise) (o : Option SocketAddr)
      → get_elem? s.wg.peers k ≡ some p
      → p.endpoint ≡ o
      → Delivers k packet s (
          send_to ops noise lib s o
            (record s.wg { peers = set s.wg.peers k p' })
            (sent (noise.encapsulate p.tunn packet).1))
  unfolding send_to
  send_to-Delivers k packet s p p' none at e = record {
    sends = rw (at, e) (sym (append-nil s.sent));
    others = λ j ne. get_elem?-set_other s.wg.peers k j p' ne;
    queue = refl;
  }
  send_to-Delivers k packet s p p' (some to) at e = record {
    sends = rw (at, e) refl;
    others = λ j ne. get_elem?-set_other s.wg.peers k j p' ne;
    queue = refl;
  }

  -- What is sent, with the peer looked up before and after.
  to_peer-eq :
      (k : ℕ) (packet : Bytes) (s : State ops noise lib) (e : Wg noise × List Bytes)
      → encapsulate noise s.wg k packet [] ≡ e
      → to_peer ops noise lib s packet (some k)
        ≡ send_to ops noise lib s (endpoint_of noise (get_elem? e.0.peers k)) e.0 e.1
  unfolding to_peer endpoint
  to_peer-eq k packet s e h =
      ap
        (λ (e : Wg noise × List Bytes).
          send_to ops noise lib s (endpoint_of noise (get_elem? e.0.peers k)) e.0 e.1)
        h

  unsent-Delivers :
      (k : ℕ) (packet : Bytes) (s : State ops noise lib)
      → get_elem? s.wg.peers k ≡ none
      → Delivers k packet s (send_to ops noise lib s none s.wg [])
  unfolding send_to
  unsent-Delivers k packet s at = record {
    sends = rw at (sym (append-nil s.sent));
    others = λ j ne. refl;
    queue = refl;
  }

  to_peer-Delivers :
      (k : ℕ) (packet : Bytes) (s : State ops noise lib) (o : Option (Peer noise))
      → get_elem? s.wg.peers k ≡ o
      → Delivers k packet s (to_peer ops noise lib s packet (some k))
  unfolding endpoint_of
  to_peer-Delivers k packet s none at =
      subst (Delivers k packet s)
        (sym (
          to_peer-eq k packet s _ (encapsulate-none noise s.wg k packet [] at)
          ∙ ap (λ o. send_to ops noise lib s (endpoint_of noise o) s.wg []) at))
        (unsent-Delivers k packet s at)
  to_peer-Delivers k packet s (some p) at =
      let p' = record p { tunn = (noise.encapsulate p.tunn packet).0 } in
      let wg : Wg noise = record s.wg { peers = set s.wg.peers k p' } in
      subst (Delivers k packet s)
        (sym (
          to_peer-eq k packet s _ (encapsulate-some noise s.wg k packet [] p at)
          ∙ ap
              (λ o.
                send_to ops noise lib s (endpoint_of noise o) wg
                  (sent (noise.encapsulate p.tunn packet).1))
              (get_elem?-set_same s.wg.peers k p p' at)))
        (send_to-Delivers k packet s p p' p.endpoint at refl)

  -- A packet for an address in a network of a peer goes to that peer alone: what its session makes
  -- of it is sent to its endpoint, if one is known, and no other session moves on.
  pub on_reply-Delivers :
      (peers : List (PeerConfig Net)) (allowed : List (Net × ℕ)) (s : State ops noise lib)
      (packet : Bytes) (dst : IpAddr) (k : ℕ) (p : PeerConfig Net) (n : Net)
      → RoutesTo ops peers allowed
      → noise.dst_address packet ≡ some dst
      → get_elem? peers k ≡ some p
      → Memᴰ n p.allowed_ips
      → contains n dst ≡ true
      → Delivers k packet s (on_reply ops noise lib allowed s packet)
  unfolding on_reply route
  on_reply-Delivers peers allowed s packet dst k p n routes to at m h =
      subst (Delivers k packet s)
        (sym (
          ap (route ops noise lib allowed s packet) to
          ∙ ap (to_peer ops noise lib s packet) (routes.owner k p n dst at m h)))
        (to_peer-Delivers k packet s (get_elem? s.wg.peers k) refl)
