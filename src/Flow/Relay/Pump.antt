-- ===== src/Flow/Relay/Pump.antt =====
-- What the pump lets through.
use wg_wrapper.Base.{
  ℕ, ◌^◌, ◌<◌, ◌≤◌, ◌≡◌, refl, Bool, Bool-cases, true, false, List, [], ◌∷◌, Bytes, Option, none,
  some, arith, All, Memᴰ, inl, inr, length, ltb, if◌then◌else◌,
}
use wg_wrapper.Addr.{IsAddr, SocketAddr}
use wg_wrapper.Flow.Relay.{
  Event, from_peer, from_relay, peer_ended, relay_failed, control_closed, idle, Pumped, on_reply,
  pump,
}
use wg_wrapper.Flow.UdpHeader.{parse_udp, unwrap_udp, udp_header-RoundTrip}

-- A datagram for the relay names the flow's destination around a payload that the peer sent.
pub record FromPeer (dst : SocketAddr) (es : List Event) (datagram : Bytes) : Type 0 where
  pub payload : Bytes
  pub taken : Bool
  pub sent : Memᴰ (from_peer payload taken) es
  pub names : parse_udp datagram ≡ some (dst, payload)

-- A payload for the peer fits the tunnel and is what a datagram of the relay carries.
pub record FromRelay (limit : ℕ) (dst : SocketAddr) (es : List Event) (payload : Bytes)
    : Type 0 where
  pub datagram : Bytes
  pub taken : Bool
  pub came : Memᴰ (from_relay datagram taken) es
  pub carries : unwrap_udp datagram dst ≡ some payload
  pub fits : length payload ≤ limit

-- Both directions of a run.
abbrev pub Faithful : ℕ → SocketAddr → List Event → Pumped → Type 0
Faithful limit dst es p = All (FromPeer dst es) p.relayed × All (FromRelay limit dst es) p.written

later_FromPeer :
    (dst : SocketAddr) (e : Event) (es : List Event) (ds : List Bytes)
    → All (FromPeer dst es) ds
    → All (FromPeer dst (e ∷ es)) ds
later_FromPeer dst e es [] h = tt
later_FromPeer dst e es (d ∷ ds) (x, h) = (
  record { payload = x.payload; taken = x.taken; sent = Memᴰ.tail x.sent; names = x.names },
  later_FromPeer dst e es ds h,
)

later_FromRelay :
    (limit : ℕ) (dst : SocketAddr) (e : Event) (es : List Event) (ps : List Bytes)
    → All (FromRelay limit dst es) ps
    → All (FromRelay limit dst (e ∷ es)) ps
later_FromRelay limit dst e es [] h = tt
later_FromRelay limit dst e es (p ∷ ps) (x, h) = (
  record {
    datagram = x.datagram;
    taken = x.taken;
    came = Memᴰ.tail x.came;
    carries = x.carries;
    fits = x.fits;
  },
  later_FromRelay limit dst e es ps h,
)

later_Faithful :
    (limit : ℕ) (dst : SocketAddr) (e : Event) (es : List Event) (p : Pumped)
    → Faithful limit dst es p
    → Faithful limit dst (e ∷ es) p
later_Faithful limit dst e es p h =
    (later_FromPeer dst e es p.relayed h.0, later_FromRelay limit dst e es p.written h.1)

All-if : (P : Bytes → Type 0) (b : Bool) (xs : List Bytes) → All P xs → All P (if b then xs else [])
All-if P true xs h = h
All-if P false xs h = tt

on_reply-Faithful :
    (limit : ℕ) (dst : SocketAddr) (d : Bytes) (taken : Bool) (es : List Event) (o : Option Bytes)
    (rest : Pumped)
    → unwrap_udp d dst ≡ o
    → Faithful limit dst (from_relay d taken ∷ es) rest
    → Faithful limit dst (from_relay d taken ∷ es) (on_reply limit taken o rest)
unfolding on_reply
on_reply-Faithful limit dst d taken es none rest e h = h
on_reply-Faithful limit dst d taken es (some payload) rest e h =
    elim (Bool-cases (ltb limit (length payload))) [
      | inl long ↦ rw long h
      | inr short ↦ rw short (
        All-if _ taken rest.relayed h.0,
        (
          record {
            datagram = d;
            taken = taken;
            came = Memᴰ.head refl;
            carries = e;
            fits = ground arith;
          },
          All-if _ taken rest.written h.1,
        ),
      )
    ]

-- The pump invents nothing: each datagram for the relay is a payload of the peer behind a header
-- that names the flow's destination, and each payload for the peer came in a datagram of the relay
-- and fits the tunnel.
pub pump-Faithful :
    (limit : ℕ) (dst : SocketAddr) (es : List Event)
    → IsAddr dst.ip
    → dst.port < 2 ^ 16
    → Faithful limit dst es (pump limit dst es)
unfolding pump
pump-Faithful limit dst [] ha hp = (tt, tt)
pump-Faithful limit dst (from_peer [] taken ∷ es) ha hp = (tt, tt)
pump-Faithful limit dst (from_peer (b ∷ bs) taken ∷ es) ha hp =
    let payload : Bytes = b ∷ bs in
    let h =
      later_Faithful limit dst (from_peer payload taken) es _ (pump-Faithful limit dst es ha hp) in
    (
      (
        record {
          payload = payload;
          taken = taken;
          sent = Memᴰ.head refl;
          names = (udp_header-RoundTrip dst dst payload ha hp).0;
        },
        All-if _ taken _ h.0,
      ),
      All-if _ taken _ h.1,
    )
pump-Faithful limit dst (from_relay d taken ∷ es) ha hp =
    on_reply-Faithful limit dst d taken es _ _ refl
      (later_Faithful limit dst (from_relay d taken) es _ (pump-Faithful limit dst es ha hp))
pump-Faithful limit dst (peer_ended ∷ es) ha hp = (tt, tt)
pump-Faithful limit dst (relay_failed ∷ es) ha hp = (tt, tt)
pump-Faithful limit dst (control_closed ∷ es) ha hp = (tt, tt)
pump-Faithful limit dst (idle ∷ es) ha hp = (tt, tt)
