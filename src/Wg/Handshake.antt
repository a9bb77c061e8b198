-- ===== src/Wg/Handshake.antt =====
-- Whom a datagram is attributed to.
use wg_wrapper.Base.{
  Bool, ℕ, ◌/◌, ◌<◌, ◌≡◌, refl, ap, ◌∙◌, subst, List, [], ◌∷◌, ◌++◌, Bytes, Option, none, some,
  arith, inl, inr, get_elem?, length, Option-cases, get_elem?-lt, some-eq,
}
use wg_wrapper.Addr.{SocketAddr}
use wg_wrapper.Noise.{
  Noise, handshake_init, handshake_response, cookie_reply, packet_data, Verdict, verified,
  under_load, refused,
}
use wg_wrapper.Wg.Peers.{keys, IsIndexed, keys-set}
use wg_wrapper.Wg.{
  Peer, Wg, Origin, nobody, cookie, from_peer, origin, by_static_key, Drained, Received, settle,
  finish, deliver, dispatch, unanswered, recv_from_network, lookup,
}

module _ (noise : Noise) where
  open noise use {Tunn, Limiter, Init}

  -- The datagram names peer `i`: by its static key, or by a receiver index of that peer.
  pub data Names (private : Bytes) (ks : List Bytes) (i : ℕ) : Verdict Init → Type 0 where
    by_key :
        {p : Init} (k : Bytes)
        → noise.parse_handshake_anon private p ≡ some k
        → get_elem? ks i ≡ some k
        → Names private ks i (verified (handshake_init p))
    by_response : {r : ℕ} → r / 256 ≡ i → Names private ks i (verified (handshake_response r))
    by_cookie : {r : ℕ} → r / 256 ≡ i → Names private ks i (verified (cookie_reply r))
    by_data : {r : ℕ} → r / 256 ≡ i → Names private ks i (verified (packet_data r))

  static-Names :
      (wg : Wg noise) (p : Init) (o : Option Bytes) (idx kind : ℕ)
      → IsIndexed noise wg
      → noise.parse_handshake_anon wg.private p ≡ o
      → by_static_key noise wg o ≡ from_peer idx kind
      → Names wg.private (keys noise wg.peers) idx (verified (handshake_init p))
  static-Names wg p none idx kind v e h = cc
  static-Names wg p (some k) idx kind v e h = elim (Option-cases (lookup k wg.by_key)) [
    | inl absent ↦ ground arith
    | inr (i, found) ↦
        let same : i ≡ idx = ground arith in by_key k e (v.known k idx (found ∙ ap some same))
  ]

  origin-Names :
      (wg : Wg noise) (v : Verdict Init) (idx kind : ℕ)
      → IsIndexed noise wg
      → origin noise wg v ≡ from_peer idx kind
      → Names wg.private (keys noise wg.peers) idx v
  unfolding origin
  origin-Names wg (verified (handshake_init p)) idx kind v e =
      static-Names wg p (noise.parse_handshake_anon wg.private p) idx kind v refl e
  origin-Names wg (verified (handshake_response r)) idx kind v e = by_response (ground arith)
  origin-Names wg (verified (cookie_reply r)) idx kind v e = by_cookie (ground arith)
  origin-Names wg (verified (packet_data r)) idx kind v e = by_data (ground arith)
  origin-Names wg (under_load c) idx kind v e = cc
  origin-Names wg refused idx kind v e = cc

  -- What a call returns: the peer that the datagram names, if it names one, and a table of peers
  -- with the same keys.
  pub record Outcome (wg : Wg noise) (v : Verdict Init) (r : Received noise) : Type 0 where
    pub names :
        (i : ℕ)
        → r.peer ≡ some i
        → Names wg.private (keys noise wg.peers) i v × (i < length wg.peers)
    pub same_keys : keys noise r.wg.peers ≡ keys noise wg.peers
    pub same_table : r.wg.by_key ≡ wg.by_key
    pub same_private : r.wg.private ≡ wg.private

  unanswered-Outcome :
      (wg : Wg noise) (v : Verdict Init) (net_out ip_out : List Bytes) (r : Received noise)
      → unanswered noise wg net_out ip_out ≡ some r
      → Outcome wg v r
  unfolding unanswered
  unanswered-Outcome wg v net_out ip_out r e = record {
    names = λ i h. ground arith;
    same_keys = ground arith;
    same_table = ground arith;
    same_private = ground arith;
  }

  settle-Outcome :
      (wg : Wg noise) (v : Verdict Init) (from : SocketAddr) (idx kind before : ℕ)
      (peer : Peer noise) (d : Drained noise) (decrypted : Option Bool)
      → get_elem? wg.peers idx ≡ some peer
      → Names wg.private (keys noise wg.peers) idx v
      → Outcome wg v (settle noise wg from idx kind peer before d decrypted)
  unfolding settle
  settle-Outcome wg v from idx kind before peer d none at n = record {
    names = λ i h. cc;
    same_keys = keys-set noise wg.peers idx peer _ at refl;
    same_table = refl;
    same_private = refl;
  }
  settle-Outcome wg v from idx kind before peer d (some decrypted) at n = record {
    names = λ i h.
        subst (λ i. Names wg.private (keys noise wg.peers) i v × (i < length wg.peers)) (some-eq h)
          (n, get_elem?-lt wg.peers idx at);
    same_keys = keys-set noise wg.peers idx peer _ at refl;
    same_table = refl;
    same_private = refl;
  }

  finish-Outcome :
      (wg : Wg noise) (v : Verdict Init) (from : SocketAddr) (idx kind before : ℕ)
      (peer : Peer noise) (run : Option (Drained noise)) (r : Received noise)
      → get_elem? wg.peers idx ≡ some peer
      → Names wg.private (keys noise wg.peers) idx v
      → finish noise wg from idx kind peer before run ≡ some r
      → Outcome wg v r
  unfolding finish
  finish-Outcome wg v from idx kind before peer none r at n e = cc
  finish-Outcome wg v from idx kind before peer (some d) r at n e =
      subst (Outcome wg v) (some-eq e)
        (settle-Outcome wg v from idx kind before peer d d.decrypted at n)

  deliver-Outcome :
      (fuel : ℕ) (wg : Wg noise) (v : Verdict Init) (from : SocketAddr) (datagram : Bytes)
      (net_out ip_out : List Bytes) (idx kind : ℕ) (peer : Option (Peer noise)) (r : Received noise)
      → get_elem? wg.peers idx ≡ peer
      → Names wg.private (keys noise wg.peers) idx v
      → deliver noise fuel wg from datagram net_out ip_out idx kind peer ≡ some r
      → Outcome wg v r
  unfolding deliver
  deliver-Outcome fuel wg v from datagram net_out ip_out idx kind none r at n e =
      unanswered-Outcome wg v net_out ip_out r e
  deliver-Outcome fuel wg v from datagram net_out ip_out idx kind (some peer) r at n e =
      finish-Outcome wg v from idx kind (length net_out) peer _ r at n e

  dispatch-Outcome :
      (fuel : ℕ) (wg : Wg noise) (v : Verdict Init) (from : SocketAddr) (datagram : Bytes)
      (net_out ip_out : List Bytes) (o : Origin) (r : Received noise)
      → IsIndexed noise wg
      → origin noise wg v ≡ o
      → dispatch noise fuel wg from datagram net_out ip_out o ≡ some r
      → Outcome wg v r
  unfolding dispatch
  dispatch-Outcome fuel wg v from datagram net_out ip_out nobody r w o e =
      unanswered-Outcome wg v net_out ip_out r e
  dispatch-Outcome fuel wg v from datagram net_out ip_out (cookie c) r w o e =
      unanswered-Outcome wg v (net_out ++ c ∷ []) ip_out r e
  dispatch-Outcome fuel wg v from datagram net_out ip_out (from_peer idx kind) r w o e =
      deliver-Outcome fuel wg v from datagram net_out ip_out idx kind _ r refl
        (origin-Names wg v idx kind w o) e

  -- A datagram is attributed only to the peer that it names: a handshake initiation to the peer with
  -- the sender's static key, any other message to the peer of its receiver index. The keys and
  -- their table stay as they were.
  pub recv_from_network-Outcome :
      (fuel : ℕ) (wg : Wg noise) (from : SocketAddr) (datagram : Bytes)
      (net_out ip_out : List Bytes) (r : Received noise)
      → IsIndexed noise wg
      → recv_from_network noise fuel wg from datagram net_out ip_out ≡ some r
      → Outcome wg (noise.verify_packet wg.limiter from.ip datagram).1 r
  unfolding recv_from_network
  recv_from_network-Outcome fuel wg from datagram net_out ip_out r w e =
      let checked = noise.verify_packet wg.limiter from.ip datagram in
      let wg' = record wg { limiter = checked.0 } in
      let o =
        dispatch-Outcome fuel wg' checked.1 from datagram net_out ip_out _ r
          (record { known = w.known; listed = w.listed }) refl e in
      record {
        names = o.names;
        same_keys = o.same_keys;
        same_table = o.same_table;
        same_private = o.same_private;
      }
