-- ===== src/Wg/Roaming.antt =====
-- A peer's endpoint moves only on proof of the peer's private key.
use wg_wrapper.Base.{
  ℕ, ◌≡◌, ◌≢◌, refl, sym, ap, subst, ◌∙◌, Bool, true, false, not, ◌||◌, ◌&&◌, List, [], ◌∷◌, ◌++◌,
  Bytes, Option, none, some, arith, ◌⊎◌, inl, inr, get_elem?, set, get_elem?-set, head?, any,
  any-mem, Memᴰ, drop, drop-length_append, length, ◌==◌, Bool-cases, if◌then◌else◌,
}
use wg_wrapper.Addr.{SocketAddr}
use wg_wrapper.Noise.{
  Noise, handshake_init, handshake_response, cookie_reply, packet_data, Verdict, verified,
  under_load, refused,
}
use wg_wrapper.Wg.Drain.{Extends, drain_loop-Extends}
use wg_wrapper.Wg.{
  Peer, Wg, Origin, nobody, cookie, from_peer, origin, by_static_key, endpoint, endpoint_of,
  Drained, drain_loop, Received, settle, finish, deliver, dispatch, unanswered, recv_from_network,
  not_cookie, roams,
}

not_cookie-head : (d : Bytes) → not_cookie d ≡ true → head? d ≢ some 3
unfolding not_cookie
not_cookie-head [] h e = cc
not_cookie-head (b ∷ d) h e = ground arith

module _ (noise : Noise) where
  open noise use {Tunn, Limiter, Init}

  abbrev pub IsHandshake : Verdict Init → Type 0
  IsHandshake v =
      ((p : Init) × (v ≡ verified (handshake_init p)))
      ⊎ ((receiver : ℕ) × (v ≡ verified (handshake_response receiver)))

  abbrev pub IsData : Verdict Init → Type 0
  IsData v = (receiver : ℕ) × (v ≡ verified (packet_data receiver))

  by_static_key-kind :
      (wg : Wg noise) (key : Option Bytes) (idx kind : ℕ)
      → by_static_key noise wg key ≡ from_peer idx kind
      → kind ≡ 1
  by_static_key-kind wg none idx kind e = cc
  by_static_key-kind wg (some key) idx kind e = ground arith

  origin-KindOf :
      (wg : Wg noise) (v : Verdict Init) (idx kind : ℕ)
      → origin noise wg v ≡ from_peer idx kind
      → (IsHandshake v × (kind ≢ 4)) ⊎ (kind ≡ 3) ⊎ IsData v
  unfolding origin
  origin-KindOf wg (verified (handshake_init p)) idx kind e =
      inl (inl (p, refl), λ four. ground (arith, by_static_key-kind wg _ idx kind e))
  origin-KindOf wg (verified (handshake_response r)) idx kind e =
      inl (inr (r, refl), λ four. ground arith)
  origin-KindOf wg (verified (cookie_reply r)) idx kind e = inr (inl (ground arith))
  origin-KindOf wg (verified (packet_data r)) idx kind e = inr (inr (r, refl))
  origin-KindOf wg (under_load c) idx kind e = cc
  origin-KindOf wg refused idx kind e = cc

  -- Proof that the sender holds the key of the peer: the datagram opened to a packet, is a data packet
  -- that the session took, or is a handshake message that was answered by more than cookies.
  pub data Proven (v : Verdict Init) (ip_out ip_out' net_out net_out' : List Bytes) : Type 0 where
    opened :
        (packet : Bytes)
        → ip_out' ≡ ip_out ++ packet ∷ []
        → Proven v ip_out ip_out' net_out net_out'
    data_packet : IsData v → Proven v ip_out ip_out' net_out net_out'
    answered :
        (sent : List Bytes) (d : Bytes)
        → IsHandshake v
        → net_out' ≡ net_out ++ sent
        → Memᴰ d sent
        → head? d ≢ some 3
        → Proven v ip_out ip_out' net_out net_out'

  answered-Proven :
      (v : Verdict Init) (kind : ℕ) (net_out ip_out : List Bytes) (d : Drained noise)
      → (IsHandshake v × (kind ≢ 4)) ⊎ (kind ≡ 3) ⊎ IsData v
      → Extends noise net_out ip_out d
      → (kind == 4 || not (kind == 3) && any not_cookie (drop (length net_out) d.net_out)) ≡ true
      → Proven v ip_out d.ip_out net_out d.net_out
  answered-Proven v kind net_out ip_out d (inr (inr data_)) x h = data_packet data_
  answered-Proven v kind net_out ip_out d (inr (inl three)) x h = absurd (ground arith)
  answered-Proven v kind net_out ip_out d (inl (handshake, not_four)) x h =
      let behind : drop (length net_out) d.net_out ≡ x.sent =
        rw x.net_grows (drop-length_append net_out x.sent) in
      let (m, at, fresh) = any-mem not_cookie x.sent (rw (← behind) (ground arith)) in
      answered x.sent m handshake x.net_grows at (not_cookie-head m fresh)

  roams-Proven :
      (wg : Wg noise) (v : Verdict Init) (idx kind : ℕ) (net_out ip_out : List Bytes)
      (d : Drained noise) (decrypted : Bool)
      → origin noise wg v ≡ from_peer idx kind
      → Extends noise net_out ip_out d
      → d.decrypted ≡ some decrypted
      → roams decrypted kind (drop (length net_out) d.net_out) ≡ true
      → Proven v ip_out d.ip_out net_out d.net_out
  roams-Proven wg v idx kind net_out ip_out d true o x e h = elim (x.opened) [
    | inl (_, closed) ↦ absurd (closed e)
    | inr (packet, grown, _) ↦ opened packet grown
  ]
  roams-Proven wg v idx kind net_out ip_out d false o x e h =
      answered-Proven v kind net_out ip_out d (origin-KindOf wg v idx kind o) x h

  -- Storing a peer changes the endpoint of that peer only.
  endpoint-set :
      (ps : List (Peer noise)) (idx j : ℕ) (new : Peer noise)
      → (endpoint_of noise (get_elem? (set ps idx new) j) ≡ endpoint_of noise (get_elem? ps j))
        ⊎ ((j ≡ idx) × (endpoint_of noise (get_elem? (set ps idx new) j) ≡ new.endpoint))
  unfolding endpoint_of
  endpoint-set ps idx j new = elim (get_elem?-set ps idx j new) [
    | inl same ↦ inl (ap (endpoint_of noise) same)
    | inr (here, stored) ↦ inr (here, ap (endpoint_of noise) stored)
  ]

  -- What a call may do to the endpoint of peer `j`.
  abbrev pub Moves :
      Wg noise → SocketAddr → Verdict Init → List Bytes → List Bytes → Received noise → ℕ → Type 0
  Moves wg from v net_out ip_out r j =
      (endpoint noise r.wg j ≡ endpoint noise wg j)
      ⊎ ((r.peer ≡ some j)
          × (endpoint noise r.wg j ≡ some from)
          × Proven v ip_out r.ip_out net_out r.net_out)

  settle-Moves :
      (wg : Wg noise) (from : SocketAddr) (v : Verdict Init) (idx kind : ℕ) (peer : Peer noise)
      (net_out ip_out : List Bytes) (d : Drained noise) (decrypted : Option Bool) (j : ℕ)
      → origin noise wg v ≡ from_peer idx kind
      → get_elem? wg.peers idx ≡ some peer
      → Extends noise net_out ip_out d
      → d.decrypted ≡ decrypted
      → Moves wg from v net_out ip_out
          (settle noise wg from idx kind peer (length net_out) d decrypted)
          j
  unfolding settle endpoint
  settle-Moves wg from v idx kind peer net_out ip_out d none j o at x e =
      elim (endpoint-set wg.peers idx j (record peer { tunn = d.tunn; endpoint = peer.endpoint })) [
        | inl same ↦ inl same
        | inr (here, new) ↦ inl (new ∙ sym (rw (here, at)))
      ]
  settle-Moves wg from v idx kind peer net_out ip_out d (some decrypted) j o at x e =
      let moved = roams decrypted kind (drop (length net_out) d.net_out) in
      let e' = if moved then some from else peer.endpoint in
      elim (endpoint-set wg.peers idx j (record peer { tunn = d.tunn; endpoint = e' })) [
        | inl same ↦ inl same
        | inr (here, new) ↦ elim (Bool-cases moved) [
          | inl t ↦ inr (
            ap some (sym here),
            new ∙ rw t,
            roams-Proven wg v idx kind net_out ip_out d decrypted o x e t,
          )
          | inr f ↦ inl (new ∙ rw f (sym (rw (here, at))))
        ]
      ]

  finish-Moves :
      (wg : Wg noise) (from : SocketAddr) (v : Verdict Init) (net_out ip_out : List Bytes)
      (idx kind : ℕ) (peer : Peer noise) (run : Option (Drained noise)) (r : Received noise) (j : ℕ)
      → origin noise wg v ≡ from_peer idx kind
      → get_elem? wg.peers idx ≡ some peer
      → ((d : Drained noise) → run ≡ some d → Extends noise net_out ip_out d)
      → finish noise wg from idx kind peer (length net_out) run ≡ some r
      → Moves wg from v net_out ip_out r j
  unfolding finish
  finish-Moves wg from v net_out ip_out idx kind peer none r j o at x e = cc
  finish-Moves wg from v net_out ip_out idx kind peer (some d) r j o at x e =
      let same : settle noise wg from idx kind peer (length net_out) d d.decrypted ≡ r = cc in
      subst (λ r. Moves wg from v net_out ip_out r j) same
        (settle-Moves wg from v idx kind peer net_out ip_out d d.decrypted j o at (x d refl) refl)

  deliver-Moves :
      (fuel : ℕ) (wg : Wg noise) (from : SocketAddr) (datagram : Bytes) (v : Verdict Init)
      (net_out ip_out : List Bytes) (idx kind : ℕ) (peer : Option (Peer noise)) (r : Received noise)
      (j : ℕ)
      → origin noise wg v ≡ from_peer idx kind
      → get_elem? wg.peers idx ≡ peer
      → deliver noise fuel wg from datagram net_out ip_out idx kind peer ≡ some r
      → Moves wg from v net_out ip_out r j
  unfolding deliver unanswered
  deliver-Moves fuel wg from datagram v net_out ip_out idx kind none r j o at e = inl (ground arith)
  deliver-Moves fuel wg from datagram v net_out ip_out idx kind (some peer) r j o at e =
      finish-Moves wg from v net_out ip_out idx kind peer
        (drain_loop noise fuel wg.limiter peer.tunn from.ip datagram net_out ip_out) r j o at
        (drain_loop-Extends noise fuel wg.limiter peer.tunn from.ip datagram net_out ip_out) e

  dispatch-Moves :
      (fuel : ℕ) (wg : Wg noise) (from : SocketAddr) (datagram : Bytes) (v : Verdict Init)
      (net_out ip_out : List Bytes) (o : Origin) (r : Received noise) (j : ℕ)
      → origin noise wg v ≡ o
      → dispatch noise fuel wg from datagram net_out ip_out o ≡ some r
      → Moves wg from v net_out ip_out r j
  unfolding dispatch unanswered
  dispatch-Moves fuel wg from datagram v net_out ip_out nobody r j o e = inl (ground arith)
  dispatch-Moves fuel wg from datagram v net_out ip_out (cookie c) r j o e = inl (ground arith)
  dispatch-Moves fuel wg from datagram v net_out ip_out (from_peer idx kind) r j o e =
      deliver-Moves fuel wg from datagram v net_out ip_out idx kind (get_elem? wg.peers idx) r j o
        refl e

  -- A received datagram leaves the endpoint of every peer as it was, except that of the peer which
  -- the call returns: that one may become the sender's address, and only if the datagram is proven.
  pub recv_from_network-Moves :
      (fuel : ℕ) (wg : Wg noise) (from : SocketAddr) (datagram : Bytes)
      (net_out ip_out : List Bytes) (r : Received noise) (j : ℕ)
      → recv_from_network noise fuel wg from datagram net_out ip_out ≡ some r
      → Moves wg from (noise.verify_packet wg.limiter from.ip datagram).1 net_out ip_out r j
  unfolding recv_from_network endpoint
  recv_from_network-Moves fuel wg from datagram net_out ip_out r j e =
      let checked = noise.verify_packet wg.limiter from.ip datagram in
      let wg' = record wg { limiter = checked.0 } in
      dispatch-Moves fuel wg' from datagram checked.1 net_out ip_out (origin noise wg' checked.1) r
        j refl e
