-- ===== src/Flow/Relay.antt =====
-- crates/server/src/flow.rs: `handle_udp` and `udp_relay`, which way a UDP flow takes, and the pump
-- between the peer and the proxy's relay.
pub mod Pump
pub mod Fallback
use wg_wrapper.Base.{
  ℕ, min, Bool, true, false, List, [], ◌∷◌, ◌++◌, Bytes, Option, none, some, length, any, bytes_eq,
  ltb, ◌==◌, if◌then◌else◌,
}
use wg_wrapper.Addr.{SocketAddr}
use wg_wrapper.Flow.UdpHeader.{udp_header, unwrap_udp}
use wg_wrapper.Flow.{cap}
use wg_wrapper.Text.{Text}

-- The branches of the select: a datagram of the peer, with whether the relay takes it; the end of
-- the peer's stream, which an empty read also is; a datagram of the relay, with whether the stack takes the payload; an error
-- of the relay's socket; anything on the control connection; the idle timer.
pub data Event : Type 0 where
  from_peer from_relay : Bytes → Bool → Event
  peer_ended relay_failed control_closed idle : Event

-- What went to the relay and to the peer.
pub record Pumped : Type 0 where
  pub relayed : List Bytes
  pub written : List Bytes

-- A reply that is no datagram of RFC 1928, or that does not fit, is passed over.
pub on_reply : ℕ → Bool → Option Bytes → Pumped → Pumped
on_reply limit taken none rest = rest
on_reply limit taken (some payload) rest = if ltb limit (length payload) then rest else record {
  relayed = if taken then rest.relayed else [];
  written = payload ∷ (if taken then rest.written else []);
}

-- The loop, until the flow ends.
unfoldable pub pump : ℕ → SocketAddr → List Event → Pumped
unfolding on_reply
pump limit dst [] = record { relayed = []; written = [] }
pump limit dst (from_peer [] taken ∷ es) = record { relayed = []; written = [] }
pump limit dst (from_peer (b ∷ bs) taken ∷ es) =
    let rest = pump limit dst es in
    record {
      relayed = (udp_header dst ++ b ∷ bs) ∷ (if taken then rest.relayed else []);
      written = if taken then rest.written else [];
    }
pump limit dst (from_relay datagram taken ∷ es) =
    let rest = pump limit dst es in on_reply limit taken (unwrap_udp datagram dst) rest
pump limit dst (peer_ended ∷ es) = record { relayed = []; written = [] }
pump limit dst (relay_failed ∷ es) = record { relayed = []; written = [] }
pump limit dst (control_closed ∷ es) = record { relayed = []; written = [] }
pump limit dst (idle ∷ es) = record { relayed = []; written = [] }

-- How an attempt at an association ends.
pub data Attempt : Type 0 where
  associated refused timed_out : Attempt

-- What becomes of a flow: DNS over TCP to a resolver, a relay with an idle limit in seconds, or
-- nothing.
pub data Way : Type 0 where
  over_tcp : SocketAddr → Way
  relayed : ℕ → Way
  dropped : Way

abbrev dns_port : ℕ
dns_port = 53

-- DNS_IDLE
abbrev dns_idle : ℕ
dns_idle = 10

abbrev pub without_udp : Text → List Text → Bool
without_udp addr = any (bytes_eq addr)

-- The stream handed back.
abbrev fallback : SocketAddr → Way
fallback dst = if dst.port == dns_port then over_tcp dst else dropped

-- A refusal is remembered, a time-out is not.
pub attempted : List Text → Text → SocketAddr → ℕ → Attempt → Way × List Text
attempted no_udp addr dst limit associated = (relayed limit, no_udp)
attempted no_udp addr dst limit refused = (fallback dst, addr ∷ no_udp)
attempted no_udp addr dst limit timed_out = (fallback dst, no_udp)

-- Up to the pump; the upstreams without UDP are not tried again.
unfoldable pub udp_relay : List Text → Text → SocketAddr → ℕ → Attempt → Way × List Text
unfolding attempted
udp_relay no_udp addr dst limit attempt =
    if without_udp addr no_udp
    then (fallback dst, no_udp)
    else attempted no_udp addr dst limit attempt

abbrev idle_of : SocketAddr → ℕ → ℕ
idle_of dst limit = if dst.port == dns_port then min limit dns_idle else limit

pub relay_or_force :
    List Text → Text → SocketAddr → ℕ → Attempt → Option SocketAddr → Way × List Text
unfolding udp_relay
relay_or_force no_udp addr dst limit attempt none =
    udp_relay no_udp addr dst (idle_of dst limit) attempt
relay_or_force no_udp addr dst limit attempt (some forced) =
    if dst.port == dns_port
    then (over_tcp forced, no_udp)
    else udp_relay no_udp addr dst (idle_of dst limit) attempt

unfoldable pub handle_udp :
    List Text → Text → SocketAddr → Option SocketAddr → ℕ → Attempt → Way × List Text
unfolding relay_or_force
handle_udp no_udp addr dst dns limit attempt = relay_or_force no_udp addr dst limit attempt dns

-- A flow: its upstream, its destination, and how an association would end.
pub record Flow : Type 0 where
  pub addr : Text
  pub dst : SocketAddr
  pub attempt : Attempt

-- Flows one after the other, over the memory that they share.
unfoldable pub handle_all : Option SocketAddr → ℕ → List Text → List Flow → List Way × List Text
unfolding handle_udp
handle_all dns limit no_udp [] = ([], no_udp)
handle_all dns limit no_udp (f ∷ fs) =
    let (way, no_udp') = handle_udp no_udp f.addr f.dst dns limit f.attempt in
    let (ways, last) = handle_all dns limit no_udp' fs in (way ∷ ways, last)
