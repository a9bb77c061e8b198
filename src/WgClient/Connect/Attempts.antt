-- ===== src/WgClient/Connect/Attempts.antt =====
-- `connect_to` as a whole, on a configuration that `parse_conf` returned.
use wg_wrapper.Base.{
  Bool, true, false, ℕ, suc, ◌+◌, ◌≤◌, ◌≡◌, ◌⊎◌, refl, Bool-cases, false, [], ◌∷◌, Bytes, Option,
  none, some, inl, inr, ◌>>=◌, Result, ok, err,
}
use wg_wrapper.Addr.{SocketAddr}
use wg_wrapper.IpNet.{NetOps, NetText}
use wg_wrapper.Keys.{decode_key}
use wg_wrapper.Noise.{Noise}
use wg_wrapper.Wg.Peers.{keys}
use wg_wrapper.Text.{Text}
use wg_wrapper.Wg.Timers.{encapsulate}
use wg_wrapper.Wg.{Wg}
use wg_wrapper.WgClient.{Endpoint, udp, udp_host, ws, ClientConfig}
use wg_wrapper.WgClient.Conf.{parse_conf}
use wg_wrapper.WgClient.Connect.{
  ConnectError, Failed, is_bridged, no_bridge, no_socket, not_connected, Attempt, Sockets, peer_of,
  bind_of, wg_of, attempted, handshake, prepare, connect_to,
}
use wg_wrapper.WgClient.Connect.Keys.{wg_of-parsed}
use wg_wrapper.WgClient.Connect.Waits.{Concluded, handshake-Ends}

module _ (ops : NetOps) (cidr : NetText ops) (decode_base64 : Text → Option Bytes) (noise : Noise)
    (public_of : Bytes → Bytes) (sockets : Sockets) (created : ℕ) where
  -- Whom the socket is to talk to.
  abbrev pub IsPeer : ClientConfig ops.Net → SocketAddr → SocketAddr → Type 0
  IsPeer c server peer = peer_of c.endpoint sockets.bridge server ≡ ok peer

  -- What stops an attempt in front of its tasks: a socket that the system does not give. Only the
  -- bridge may have a task by then, and that one is left running.
  abbrev pub Refused : ClientConfig ops.Net → SocketAddr → ConnectError → Bool → Type 0
  Refused c server no_bridge bridge =
      (is_bridged c.endpoint ≡ true) × (sockets.bridge ≡ none) × (bridge ≡ false)
  Refused c server no_socket bridge =
      (peer : SocketAddr) × IsPeer c server peer
      × (sockets.binds (bind_of peer.ip) ≡ false)
      × (bridge ≡ is_bridged c.endpoint)
  Refused c server (not_connected peer) bridge =
      IsPeer c server peer × (sockets.connects peer ≡ false) × (bridge ≡ is_bridged c.endpoint)
  Refused c server _ bridge = ⊥

  peer_cases :
      (e : Endpoint) (b : Option SocketAddr) (server : SocketAddr)
      → ((p : SocketAddr) × (peer_of e b server ≡ ok p))
        ⊎ ((peer_of e b server ≡ err no_bridge) × (is_bridged e ≡ true) × (b ≡ none))
  unfolding peer_of
  peer_cases (ws _ _) (some local) server = inl (local, refl)
  peer_cases (ws _ _) none server = inr (refl, refl, refl)
  peer_cases (udp _) b server = inl (server, refl)
  peer_cases (udp_host _) b server = inl (server, refl)

  -- what `prepare` comes to for an endpoint `wg`
  abbrev Prepared : ClientConfig ops.Net → SocketAddr → Wg noise → Result Failed (Wg noise) → Type 0
  Prepared c server wg (err f) = Refused c server f.error f.bridge
  Prepared c server wg (ok w) = w ≡ wg

  prepare-Prepared :
      (c : ClientConfig ops.Net) (server : SocketAddr) (wg : Wg noise)
      → wg_of noise decode_base64 public_of c created ≡ ok wg
      → Prepared c server wg (prepare noise decode_base64 public_of sockets c server created)
  unfolding prepare
  prepare-Prepared c server wg keyed = elim (peer_cases c.endpoint sockets.bridge server) [
    | inr (e, bridged, none_left) ↦ rw (keyed, e) (bridged, none_left, refl)
    | inl (peer, e) ↦ elim (Bool-cases (sockets.binds (bind_of peer.ip))) [
      | inr unbound ↦ rw (keyed, e, unbound) (peer, e, unbound, refl)
      | inl bound ↦ elim (Bool-cases (sockets.connects peer)) [
        | inr alone ↦ rw (keyed, e, bound, alone) (e, alone, refl)
        | inl connected ↦ rw (keyed, e, bound, connected) refl
      ]
    ]
  ]

  module _ (later : ℕ → Wg noise) (now : ℕ → ℕ) (start : ℕ) (begins : start ≤ now 0)
      (sleeps : (k : ℕ) → now k + 25 ≤ now (suc k)) where
    -- What an attempt comes to, for the endpoint that it begins with.
    abbrev pub Attempted :
        ClientConfig ops.Net → SocketAddr → Wg noise → Result Failed (Attempt noise) → Type 0
    Attempted c server wg (err f) = Refused c server f.error f.bridge
    Attempted c server wg (ok a) =
        Concluded noise later now start begins sleeps sockets.sends (encapsulate noise wg 0 [] []).1
          a.connection a.result

    attempted-Attempted :
        (c : ClientConfig ops.Net) (server : SocketAddr) (wg : Wg noise)
        (r : Result Failed (Wg noise)) (a : Attempt noise)
        → Prepared c server wg r
        → handshake noise sockets.sends 401 wg start later now ≡ some a
        → Attempted c server wg (ok a)
        → (o : Result Failed (Attempt noise)) × (attempted noise
              (do w ← r; ok (handshake noise sockets.sends 401 w start later now))
            ≡ some o)
          × Attempted c server wg o
    attempted-Attempted c server wg (err e) a p h v = (err e, refl, p)
    attempted-Attempted c server wg (ok w) a p h v = (ok a, rw (p, h) refl, v)

    -- For a configuration that `parse_conf` returned, and if each pause takes its 25 ms,
    -- `connect_to` ends, after 401 polls at the latest. Either the system refused a socket, and then
    -- of all tasks and threads only the task of the WebSocket bridge was spawned, exactly if the
    -- endpoint has a bridge and its socket was there, and it runs on; or the one peer of the
    -- endpoint has the configured key, and it is up after a handshake was seen, or all tasks were
    -- stopped at the deadline without one, or the socket refused a datagram of the handshake and
    -- the tasks run on.
    pub connect_to-Ends :
        (conf : Text) (c : ClientConfig ops.Net) (server : SocketAddr)
        → parse_conf ops cidr decode_base64 conf ≡ ok c
        → (wg : Wg noise) × (public : Bytes) × (o : Result Failed (Attempt noise)) × (decode_key
              decode_base64 c.peer_public_key
            ≡ ok public)
          × (keys noise wg.peers ≡ public ∷ [])
          × (connect_to noise decode_base64 public_of sockets 401 c server created start later now
              ≡ some o)
          × Attempted c server wg o
    unfolding connect_to
    connect_to-Ends conf c server parsed =
        let (wg, public, keyed, decoded, one, _) =
          wg_of-parsed ops cidr decode_base64 noise public_of conf c created parsed in
        let (a, h, v) = handshake-Ends noise later now start begins sleeps sockets.sends wg in
        let (o, e, w) =
          attempted-Attempted c server wg
            (prepare noise decode_base64 public_of sockets c server created) a
            (prepare-Prepared c server wg keyed) h v in
        (wg, public, o, decoded, one, e, w)
