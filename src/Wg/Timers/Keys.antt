-- ===== src/Wg/Timers/Keys.antt =====
-- Sending leaves the keys and the endpoints of the peers alone.
use wg_wrapper.Base.{
  ℕ, zero, suc, ◌++◌, ◌≡◌, refl, sym, ap, ◌∙◌, List, [], ◌∷◌, Bytes, Option, none, some, arith,
  get_elem?, set, map,
}
use wg_wrapper.Addr.{SocketAddr}
use wg_wrapper.Noise.{
  Noise, TunnResult, finished, failed, write_to_network, write_to_tunnel_v4, write_to_tunnel_v6,
}
use wg_wrapper.Wg.Peers.{keys, keys-set}
use wg_wrapper.Wg.Timers.{
  sent, encapsulate, encapsulate_with, update_timers, timers_from, tagged, reset_if_due,
}
use wg_wrapper.Wg.{Peer, Wg, endpoint, endpoint_of}

module _ (noise : Noise) where
  abbrev pub endpoints : List (Peer noise) → List (Option SocketAddr)
  endpoints = map (λ p. p.endpoint)

  -- The peers are the same but for their sessions, and so is the table of keys.
  abbrev pub SamePeers : Wg noise → Wg noise → Type 0
  SamePeers wg wg' =
      (keys noise wg'.peers ≡ keys noise wg.peers)
      × (endpoints wg'.peers ≡ endpoints wg.peers)
      × (wg'.by_key ≡ wg.by_key)

  abbrev joined : Option (Option SocketAddr) → Option SocketAddr
  joined none = none
  joined (some o) = o

  endpoint_of-endpoints :
      (ps : List (Peer noise)) (i : ℕ)
      → endpoint_of noise (get_elem? ps i) ≡ joined (get_elem? (endpoints ps) i)
  unfolding endpoint_of
  endpoint_of-endpoints [] i = refl
  endpoint_of-endpoints (p ∷ ps) zero = refl
  endpoint_of-endpoints (p ∷ ps) (suc i) = endpoint_of-endpoints ps i

  endpoints-set :
      (ps : List (Peer noise)) (i : ℕ) (p new : Peer noise)
      → get_elem? ps i ≡ some p
      → new.endpoint ≡ p.endpoint
      → endpoints (set ps i new) ≡ endpoints ps
  endpoints-set [] i p new e h = refl
  endpoints-set (q ∷ ps) zero p new e h = let same : q ≡ p = ground arith in rw (h, same)
  endpoints-set (q ∷ ps) (suc i) p new e h = ap (◌∷◌ q.endpoint) (endpoints-set ps i p new e h)

  encapsulate_with-SamePeers :
      (wg : Wg noise) (idx : ℕ) (peer : Option (Peer noise)) (packet : Bytes) (net_out : List Bytes)
      → get_elem? wg.peers idx ≡ peer
      → SamePeers wg (encapsulate_with noise wg idx peer packet net_out).0
  unfolding encapsulate_with
  encapsulate_with-SamePeers wg idx none packet net_out e = (refl, refl, refl)
  encapsulate_with-SamePeers wg idx (some p) packet net_out e =
      (keys-set noise wg.peers idx p _ e refl, endpoints-set wg.peers idx p _ e refl, refl)

  pub encapsulate-none :
      (wg : Wg noise) (idx : ℕ) (packet : Bytes) (net_out : List Bytes)
      → get_elem? wg.peers idx ≡ none
      → encapsulate noise wg idx packet net_out ≡ (wg, net_out)
  unfolding encapsulate encapsulate_with
  encapsulate-none wg idx packet net_out e =
      ap (λ o. encapsulate_with noise wg idx o packet net_out) e

  pub encapsulate-some :
      (wg : Wg noise) (idx : ℕ) (packet : Bytes) (net_out : List Bytes) (p : Peer noise)
      → get_elem? wg.peers idx ≡ some p
      → encapsulate noise wg idx packet net_out ≡ (
        record wg {
          peers = set wg.peers idx (record p { tunn = (noise.encapsulate p.tunn packet).0 });
        },
        net_out ++ sent (noise.encapsulate p.tunn packet).1,
      )
  unfolding encapsulate encapsulate_with
  encapsulate-some wg idx packet net_out p e =
      ap (λ o. encapsulate_with noise wg idx o packet net_out) e

  timers_from-keys :
      (i : ℕ) (ps : List (Peer noise)) → keys noise (timers_from noise i ps).0 ≡ keys noise ps
  unfolding timers_from
  timers_from-keys i [] = refl
  timers_from-keys i (p ∷ ps) = ap (◌∷◌ p.public_key) (timers_from-keys (suc i) ps)

  timers_from-endpoints :
      (i : ℕ) (ps : List (Peer noise)) → endpoints (timers_from noise i ps).0 ≡ endpoints ps
  unfolding timers_from
  timers_from-endpoints i [] = refl
  timers_from-endpoints i (p ∷ ps) = ap (◌∷◌ p.endpoint) (timers_from-endpoints (suc i) ps)

  reset-SamePeers : (wg : Wg noise) (now : ℕ) → (reset_if_due noise wg now).peers ≡ wg.peers
  unfolding reset_if_due
  reset-SamePeers wg now = ground arith

  reset-by_key : (wg : Wg noise) (now : ℕ) → (reset_if_due noise wg now).by_key ≡ wg.by_key
  unfolding reset_if_due
  reset-by_key wg now = ground arith

  -- Neither `encapsulate` nor `update_timers` touches a key, an endpoint or the table.
  pub sending-SamePeers :
      (wg : Wg noise) (idx now : ℕ) (packet : Bytes) (net_out : List Bytes) (out : List (ℕ × Bytes))
      → SamePeers wg (encapsulate noise wg idx packet net_out).0
        × SamePeers wg (update_timers noise wg now out).0
  unfolding encapsulate update_timers
  sending-SamePeers wg idx now packet net_out out = (
    encapsulate_with-SamePeers wg idx (get_elem? wg.peers idx) packet net_out refl,
    (
      timers_from-keys 0 _ ∙ ap (keys noise) (reset-SamePeers wg now),
      timers_from-endpoints 0 _ ∙ ap endpoints (reset-SamePeers wg now),
      reset-by_key wg now,
    ),
  )

  -- the datagrams of the timers, with the index of their peer, from index i on
  abbrev pub due_from : ℕ → List (Peer noise) → List (ℕ × Bytes)
  due_from i [] = []
  due_from i (p ∷ ps) =
      map (λ d. (i, d)) (sent (noise.update_timers p.tunn).1) ++ due_from (suc i) ps

  tagged-sent : (i : ℕ) (a : TunnResult) → tagged i a ≡ map (λ d. (i, d)) (sent a)
  unfolding tagged
  tagged-sent i (write_to_network b) = refl
  tagged-sent i finished = refl
  tagged-sent i failed = refl
  tagged-sent i (write_to_tunnel_v4 b) = refl
  tagged-sent i (write_to_tunnel_v6 b) = refl

  timers_from-due : (i : ℕ) (ps : List (Peer noise)) → (timers_from noise i ps).1 ≡ due_from i ps
  unfolding timers_from
  timers_from-due i [] = refl
  timers_from-due i (p ∷ ps) =
      ap (λ l. l ++ (timers_from noise (suc i) ps).1) (tagged-sent i (noise.update_timers p.tunn).1)
      ∙ ap (◌++◌ (map (λ d. (i, d)) (sent (noise.update_timers p.tunn).1)))
          (timers_from-due (suc i) ps)

  pub update_timers-due :
      (wg : Wg noise) (now : ℕ) → (update_timers noise wg now []).1 ≡ due_from 0 wg.peers
  unfolding update_timers
  update_timers-due wg now = timers_from-due 0 _ ∙ ap (due_from 0) (reset-SamePeers wg now)

  -- An endpoint is that of the peer at the index.
  pub endpoint-same :
      (wg wg' : Wg noise) (i : ℕ)
      → endpoints wg'.peers ≡ endpoints wg.peers
      → endpoint noise wg' i ≡ endpoint noise wg i
  unfolding endpoint
  endpoint-same wg wg' i e =
      endpoint_of-endpoints wg'.peers i
      ∙ ap (λ es. joined (get_elem? es i)) e
      ∙ sym (endpoint_of-endpoints wg.peers i)

  pub endpoint-eq :
      (wg : Wg noise) (i : ℕ) → endpoint noise wg i ≡ endpoint_of noise (get_elem? wg.peers i)
  unfolding endpoint
  endpoint-eq wg i = refl
