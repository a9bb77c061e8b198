-- ===== src/Wg/Total.antt =====
-- Every received datagram is dealt with, if sessions drain.
use wg_wrapper.Base.{ℕ, suc, ◌≤◌, ◌≡◌, refl, List, Bytes, Option, none, some, get_elem?, length}
use wg_wrapper.Addr.{SocketAddr}
use wg_wrapper.Noise.{Noise, Drains}
use wg_wrapper.Wg.Drain.{drain_loop-Ends}
use wg_wrapper.Wg.{
  Peer, Wg, Origin, nobody, cookie, from_peer, origin, Drained, Received, finish, deliver, dispatch,
  unanswered, recv_from_network,
}

module _ (noise : Noise) (drains : Drains noise) where
  open noise use {Tunn, Limiter, Init}

  finish-some :
      (wg : Wg noise) (from : SocketAddr) (idx kind before : ℕ) (peer : Peer noise)
      (run : Option (Drained noise)) (d : Drained noise)
      → run ≡ some d
      → (r : Received noise) × (finish noise wg from idx kind peer before run ≡ some r)
  unfolding finish
  finish-some wg from idx kind before peer none d e = cc
  finish-some wg from idx kind before peer (some d') d e = (_, refl)

  -- the fuel that a datagram needs: that of the peer whose session takes it
  abbrev rounds : Limiter → SocketAddr → Bytes → Option (Peer noise) → ℕ
  rounds limiter from datagram none = 0
  rounds limiter from datagram (some peer) =
      suc (suc (drains.pending (noise.decapsulate limiter peer.tunn from.ip datagram).tunn))

  deliver-some :
      (fuel : ℕ) (wg : Wg noise) (from : SocketAddr) (datagram : Bytes)
      (net_out ip_out : List Bytes) (idx kind : ℕ) (peer : Option (Peer noise))
      → rounds wg.limiter from datagram peer ≤ fuel
      → (r : Received noise) × (deliver noise fuel wg from datagram net_out ip_out idx kind peer
          ≡ some r)
  unfolding deliver unanswered
  deliver-some fuel wg from datagram net_out ip_out idx kind none h = (_, refl)
  deliver-some fuel wg from datagram net_out ip_out idx kind (some peer) h =
      let (d, e) =
        drain_loop-Ends noise drains wg.limiter peer.tunn from.ip datagram net_out ip_out fuel h in
      finish-some wg from idx kind (length net_out) peer _ d e

  -- the fuel for a datagram of this origin
  abbrev rounds_of : Wg noise → SocketAddr → Bytes → Origin → ℕ
  rounds_of wg from datagram nobody = 0
  rounds_of wg from datagram (cookie c) = 0
  rounds_of wg from datagram (from_peer idx kind) =
      rounds wg.limiter from datagram (get_elem? wg.peers idx)

  dispatch-some :
      (fuel : ℕ) (wg : Wg noise) (from : SocketAddr) (datagram : Bytes)
      (net_out ip_out : List Bytes) (o : Origin)
      → rounds_of wg from datagram o ≤ fuel
      → (r : Received noise) × (dispatch noise fuel wg from datagram net_out ip_out o ≡ some r)
  unfolding dispatch unanswered
  dispatch-some fuel wg from datagram net_out ip_out nobody h = (_, refl)
  dispatch-some fuel wg from datagram net_out ip_out (cookie c) h = (_, refl)
  dispatch-some fuel wg from datagram net_out ip_out (from_peer idx kind) h =
      deliver-some fuel wg from datagram net_out ip_out idx kind (get_elem? wg.peers idx) h

  -- If sessions drain, every datagram is dealt with: from some amount of fuel on, the call returns.
  pub recv_from_network-Ends :
      (wg : Wg noise) (from : SocketAddr) (datagram : Bytes) (net_out ip_out : List Bytes)
      → (enough : ℕ) × ((fuel : ℕ)
          → enough ≤ fuel
          → (r : Received noise) × (recv_from_network noise fuel wg from datagram net_out ip_out
              ≡ some r))
  unfolding recv_from_network
  recv_from_network-Ends wg from datagram net_out ip_out =
      let checked = noise.verify_packet wg.limiter from.ip datagram in
      let wg' = record wg { limiter = checked.0 } in
      (
        rounds_of wg' from datagram (origin noise wg' checked.1),
        λ fuel h.
            dispatch-some fuel wg' from datagram net_out ip_out (origin noise wg' checked.1) h,
      )
