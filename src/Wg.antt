-- ===== src/Wg.antt =====
-- crates/wgcore/src/lib.rs: the multi-peer endpoint `Wg`. Time is an argument, in milliseconds;
-- the scratch buffer carries no state between calls.
pub mod Peers
pub mod Roaming
pub mod Drain
pub mod Timers
pub mod Handshake
pub mod Total
use wg_wrapper.Base.{
  ℕ, zero, suc, ◌+◌, ◌-◌, ◌/◌, Bool, true, false, not, ◌&&◌, ◌||◌, List, [], ◌∷◌, ◌++◌, Bytes,
  Option, none, some, any, length, get_elem?, set, head?, drop, bytes_eq, leb, ◌==◌, if◌then◌else◌,
  Result, ok, err,
}
use wg_wrapper.Addr.{IpAddr, SocketAddr}
use wg_wrapper.Noise.{
  Noise, TunnResult, finished, failed, write_to_network, write_to_tunnel_v4, write_to_tunnel_v6,
  Packet, handshake_init, handshake_response, cookie_reply, packet_data, Verdict, verified,
  under_load, refused,
}

pub data AddError : Type 0 where
  duplicate_peer : AddError

-- HashMap::get on keys
unfoldable pub lookup : Bytes → List (Bytes × ℕ) → Option ℕ
lookup k [] = none
lookup k ((j, i) ∷ m) = if bytes_eq j k then some i else lookup k m

-- d.first() != Some(&3)
unfoldable pub not_cookie : Bytes → Bool
not_cookie [] = true
not_cookie (b ∷ _) = not (b == 3)

-- Roam only on proof of the peer's private key.
abbrev pub roams : Bool → ℕ → List Bytes → Bool
roams decrypted kind sent = decrypted || kind == 4 || not (kind == 3) && any not_cookie sent

-- Whose datagram this is, and its kind, as the match on `verify_packet` yields them.
pub data Origin : Type 0 where
  nobody : Origin
  cookie : Bytes → Origin
  from_peer : ℕ → ℕ → Origin

module _ (noise : Noise) where
  open noise use {Tunn, Limiter, Init}

  pub record Peer : Type 0 where
    pub public_key : Bytes
    pub endpoint : Option SocketAddr
    pub tunn : Tunn

  pub record Wg : Type 0 where
    pub private : Bytes
    pub peers : List Peer
    pub by_key : List (Bytes × ℕ)
    pub limiter : Limiter
    pub last_reset : ℕ

  unfoldable pub new : Bytes → Bytes → ℕ → Wg
  new private public now = record {
    private = private;
    peers = [];
    by_key = [];
    limiter = noise.new_limiter public;
    last_reset = now;
  }

  register : Wg → Bytes → Option Bytes → Option ℕ → Option ℕ → Result AddError (Wg × ℕ)
  register wg public_key psk keepalive (some _) = err duplicate_peer
  register wg public_key psk keepalive none =
      let idx = length wg.peers in
      let tunn = noise.new_tunn wg.private public_key psk keepalive idx in
      ok (
        record wg {
          peers = wg.peers ++ record { public_key = public_key; endpoint = none; tunn = tunn } ∷ [];
          by_key = (public_key, idx) ∷ wg.by_key;
        },
        idx,
      )

  unfoldable pub add_peer : Wg → Bytes → Option Bytes → Option ℕ → Result AddError (Wg × ℕ)
  unfolding register
  add_peer wg public_key psk keepalive =
      register wg public_key psk keepalive (lookup public_key wg.by_key)

  unfoldable pub endpoint_of : Option Peer → Option SocketAddr
  endpoint_of none = none
  endpoint_of (some p) = p.endpoint

  unfoldable pub endpoint : Wg → ℕ → Option SocketAddr
  unfolding endpoint_of
  endpoint wg idx = endpoint_of (get_elem? wg.peers idx)

  abbrev by_static_key : Wg → Option Bytes → Origin
  by_static_key wg none = nobody
  by_static_key wg (some key) = elim (lookup key wg.by_key) [
    | none ↦ nobody
    | some idx ↦ from_peer idx 1
  ]

  -- The match on the verified datagram; receiver_idx >> 8 is the peer.
  unfoldable pub origin : Wg → Verdict Init → Origin
  origin wg (verified (handshake_init p)) =
      by_static_key wg (noise.parse_handshake_anon wg.private p)
  origin wg (verified (handshake_response receiver)) = from_peer (receiver / 256) 2
  origin wg (verified (cookie_reply receiver)) = from_peer (receiver / 256) 3
  origin wg (verified (packet_data receiver)) = from_peer (receiver / 256) 4
  origin wg (under_load c) = cookie c
  origin wg refused = nobody

  -- The state of the loop when it ends; `decrypted` is absent after an error.
  pub record Drained : Type 0 where
    pub limiter : Limiter
    pub tunn : Tunn
    pub net_out : List Bytes
    pub ip_out : List Bytes
    pub decrypted : Option Bool

  abbrev pub ended : Limiter → Tunn → List Bytes → List Bytes → Option Bool → Option Drained
  ended limiter tunn net_out ip_out decrypted = some (record {
    limiter = limiter;
    tunn = tunn;
    net_out = net_out;
    ip_out = ip_out;
    decrypted = decrypted;
  })

  -- The match on the session's answer; `again` goes round with an empty input.
  abbrev pub on_answer :
      (List Bytes → Option Drained)
      → Limiter
      → Tunn
      → List Bytes
      → List Bytes
      → TunnResult
      → Option Drained
  on_answer again limiter tunn net_out ip_out finished =
      ended limiter tunn net_out ip_out (some false)
  on_answer again limiter tunn net_out ip_out failed = ended limiter tunn net_out ip_out none
  on_answer again limiter tunn net_out ip_out (write_to_network b) = again (net_out ++ b ∷ [])
  on_answer again limiter tunn net_out ip_out (write_to_tunnel_v4 b) =
      ended limiter tunn net_out (ip_out ++ b ∷ []) (some true)
  on_answer again limiter tunn net_out ip_out (write_to_tunnel_v6 b) =
      ended limiter tunn net_out (ip_out ++ b ∷ []) (some true)

  -- The loop on `decapsulate`; `none` means that the fuel ran out.
  unfoldable pub drain_loop :
      ℕ → Limiter → Tunn → IpAddr → Bytes → List Bytes → List Bytes → Option Drained
  drain_loop zero limiter tunn from input net_out ip_out = none
  drain_loop (suc fuel) limiter tunn from input net_out ip_out =
      let r = noise.decapsulate limiter tunn from input in
      on_answer (λ net. drain_loop fuel r.limiter r.tunn from [] net ip_out) r.limiter r.tunn
        net_out ip_out r.answer

  pub record Received : Type 0 where
    pub wg : Wg
    pub net_out : List Bytes
    pub ip_out : List Bytes
    pub peer : Option ℕ

  -- The peer's new session and endpoint, in its place.
  abbrev pub store : Wg → ℕ → Peer → Drained → Option SocketAddr → Wg
  store wg idx peer d e = record wg {
    limiter = d.limiter;
    peers = set wg.peers idx (record peer { tunn = d.tunn; endpoint = e });
  }

  -- Behind the loop.
  pub settle : Wg → SocketAddr → ℕ → ℕ → Peer → ℕ → Drained → Option Bool → Received
  settle wg from idx kind peer before d none = record {
    wg = store wg idx peer d peer.endpoint;
    net_out = d.net_out;
    ip_out = d.ip_out;
    peer = none;
  }
  settle wg from idx kind peer before d (some decrypted) = record {
    wg =
        store wg idx peer d
          (if roams decrypted kind (drop before d.net_out) then some from else peer.endpoint);
    net_out = d.net_out;
    ip_out = d.ip_out;
    peer = some idx;
  }

  finish : Wg → SocketAddr → ℕ → ℕ → Peer → ℕ → Option Drained → Option Received
  unfolding settle
  finish wg from idx kind peer before none = none
  finish wg from idx kind peer before (some d) =
      some (settle wg from idx kind peer before d d.decrypted)

  unanswered : Wg → List Bytes → List Bytes → Option Received
  unanswered wg net_out ip_out =
      some (record { wg = wg; net_out = net_out; ip_out = ip_out; peer = none })

  -- The datagram of an identified peer; an index past the table is dropped.
  deliver :
      ℕ → Wg → SocketAddr → Bytes → List Bytes → List Bytes → ℕ → ℕ → Option Peer → Option Received
  unfolding finish unanswered
  deliver fuel wg from datagram net_out ip_out idx kind none = unanswered wg net_out ip_out
  deliver fuel wg from datagram net_out ip_out idx kind (some peer) =
      finish wg from idx kind peer (length net_out)
        (drain_loop fuel wg.limiter peer.tunn from.ip datagram net_out ip_out)

  dispatch : ℕ → Wg → SocketAddr → Bytes → List Bytes → List Bytes → Origin → Option Received
  unfolding deliver unanswered
  dispatch fuel wg from datagram net_out ip_out nobody = unanswered wg net_out ip_out
  dispatch fuel wg from datagram net_out ip_out (cookie c) =
      unanswered wg (net_out ++ c ∷ []) ip_out
  dispatch fuel wg from datagram net_out ip_out (from_peer idx kind) =
      deliver fuel wg from datagram net_out ip_out idx kind (get_elem? wg.peers idx)

  unfoldable pub recv_from_network :
      ℕ → Wg → SocketAddr → Bytes → List Bytes → List Bytes → Option Received
  unfolding dispatch
  recv_from_network fuel wg from datagram net_out ip_out =
      let (limiter, verdict) = noise.verify_packet wg.limiter from.ip datagram in
      let checked = record wg { limiter = limiter } in
      dispatch fuel checked from datagram net_out ip_out (origin checked verdict)
