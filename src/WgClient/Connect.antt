-- ===== src/WgClient/Connect.antt =====
-- crates/wgclient/src/lib.rs: `connect_to` and `close`. What sockets answer is an argument, and so
-- are the endpoint and the clock as the loop that waits for the handshake finds them.
pub mod Waits
pub mod Keys
pub mod Attempts
use wg_wrapper.Base.{
  ℕ, zero, suc, ◌+◌, Bool, true, false, List, [], ◌∷◌, ◌++◌, Bytes, Option, none, some, length, leb,
  if◌then◌else◌, Result, ok, err, ◌>>=◌, ◌>>◌, map_err, ensure,
}
use wg_wrapper.Addr.{IpAddr, v4, v6, SocketAddr}
use wg_wrapper.Keys.{KeyError, decode_key}
use wg_wrapper.Noise.{Noise}
use wg_wrapper.Text.{Text}
use wg_wrapper.Wg.Timers.{encapsulate, time_since_last_handshake}
use wg_wrapper.Wg.{Wg, AddError, new, add_peer}
use wg_wrapper.WgClient.Tunnel.{Tunnel, fetch_add}
use wg_wrapper.WgClient.{Endpoint, udp, udp_host, ws, ClientConfig}

pub data ConnectError : Type 0 where
  private_key preshared_key peer_public_key : KeyError → ConnectError
  peer_refused : AddError → ConnectError
  no_bridge no_socket : ConnectError
  not_connected : SocketAddr → ConnectError
  not_sent : Bytes → ConnectError
  no_handshake : ConnectError

-- transpose() of the preshared key
unfoldable pub decode_psk : (Text → Option Bytes) → Option Text → Result ConnectError (Option Bytes)
decode_psk decode_base64 none = ok none
decode_psk decode_base64 (some psk) = do
  key ← map_err preshared_key (decode_key decode_base64 psk)
  ok (some key)

-- Whom the socket talks to: the loopback socket of the bridge, if there is one, or the server.
unfoldable pub peer_of : Endpoint → Option SocketAddr → SocketAddr → Result ConnectError SocketAddr
peer_of (ws _ _) (some local) endpoint = ok local
peer_of (ws _ _) none endpoint = err no_bridge
peer_of (udp _) local endpoint = ok endpoint
peer_of (udp_host _) local endpoint = ok endpoint

-- tokio::spawn of wsrelay::run_client_to, once the bridge has its socket
abbrev pub is_bridged : Endpoint → Bool
is_bridged (ws _ _) = true
is_bridged (udp _) = false
is_bridged (udp_host _) = false

-- the unspecified address of the peer's family, at any port
unfoldable pub bind_of : IpAddr → SocketAddr
bind_of (v4 _) = record { ip = v4 0; port = 0 }
bind_of (v6 _) = record { ip = v6 0; port = 0 }

-- An error in front of the device's threads and the tasks, and whether the task of the bridge
-- was spawned before it: nothing aborts that one.
pub record Failed : Type 0 where
  pub error : ConnectError
  pub bridge : Bool

abbrev pub failing {ℓ} : {A : Type ℓ} → Bool → Result ConnectError A → Result Failed A
failing bridge = map_err (λ e. record { error = e; bridge = bridge })

-- What the sockets answer: the loopback address of the bridge's, whether ours is bound and
-- connected, and whether it takes a datagram.
pub record Sockets : Type 0 where
  pub bridge : Option SocketAddr
  pub binds : SocketAddr → Bool
  pub connects : SocketAddr → Bool
  pub sends : Bytes → Bool

module _ (noise : Noise) where
  module _ {Net : Type 0} (decode_base64 : Text → Option Bytes) (public_of : Bytes → Bytes) where
    -- The endpoint with its one peer.
    unfoldable pub wg_of : ClientConfig Net → ℕ → Result ConnectError (Wg noise)
    unfolding decode_psk
    wg_of cfg now = do
      private ← map_err private_key (decode_key decode_base64 cfg.private_key)
      psk ← decode_psk decode_base64 cfg.preshared_key
      public ← map_err peer_public_key (decode_key decode_base64 cfg.peer_public_key)
      (wg, idx) ←
          map_err peer_refused
            (add_peer noise (new noise private (public_of private) now) public psk cfg.keepalive)
      ok wg

  -- How the loop ended, at which of its rounds.
  pub data Waited : Type 0 where
    up timed_out : ℕ → Waited

  abbrev pub seen : Option ℕ → Bool
  seen none = false
  seen (some _) = true

  -- The loop on the handshake, 25 ms a round; `none` means that the fuel ran out.
  unfoldable pub wait : ℕ → ℕ → (ℕ → Wg noise) → (ℕ → ℕ) → ℕ → Option Waited
  unfolding time_since_last_handshake
  wait zero deadline wg now k = none
  wait (suc fuel) deadline wg now k =
      let rest = wait fuel deadline wg now (suc k) in
      if seen (time_since_last_handshake noise (wg k) 0)
      then some (up k)
      else if leb deadline (now k)
      then some (timed_out k)
      else rest

  -- What is left of a connection: its state, whether the read thread was told to stop and the
  -- tasks were aborted, and the channel to the write thread.
  pub record Connection : Type 0 where
    pub tunnel : Tunnel noise
    pub shutdown : Bool
    pub aborted : Bool
    pub to_tun : Bool

  pub record Attempt : Type 0 where
    pub connection : Connection
    pub result : Result ConnectError (Unit {0})

  -- The tasks as they are spawned.
  abbrev pub spawned : Wg noise → Tunnel noise
  spawned wg = record {
    wg = wg;
    rx = 0;
    tx = 0;
    v6_dropped = 0;
    net = [];
    tun = [];
    writing = true;
    reading = true;
  }

  abbrev running : Tunnel noise → Connection
  running t = record { tunnel = t; shutdown = false; aborted = false; to_tun = true }

  -- The end of the loop.
  unfoldable pub judge : Tunnel noise → Waited → Attempt
  judge t (up k) = record { connection = running t; result = ok tt }
  judge t (timed_out k) = record {
    connection = record { tunnel = t; shutdown = true; aborted = true; to_tun = false };
    result = err no_handshake;
  }

  abbrev judge_some : Tunnel noise → Option Waited → Option Attempt
  judge_some t none = none
  judge_some t (some w) = some (judge t w)

  module _ (sends : Bytes → Bool) where
    -- for d in &init: counted, then sent; an error leaves the function
    unfoldable pub send_init : Tunnel noise → List Bytes → Tunnel noise × Option Bytes
    send_init t [] = (t, none)
    send_init t (d ∷ ds) =
        let counted = record t { tx = fetch_add t.tx (length d) } in
        let rest = send_init (record counted { net = t.net ++ d ∷ [] }) ds in
        if sends d then rest else (counted, some d)

    abbrev and_wait : Option Waited → Tunnel noise × Option Bytes → Option Attempt
    and_wait w (t, some d) = some (record { connection = running t; result = err (not_sent d) })
    and_wait w (t, none) = judge_some t w

    -- Behind the spawning of the tasks: the empty packet asks for a handshake.
    unfoldable pub handshake : ℕ → Wg noise → ℕ → (ℕ → Wg noise) → (ℕ → ℕ) → Option Attempt
    unfolding encapsulate send_init wait judge
    handshake fuel wg start later now =
        let (sent, init) = encapsulate noise wg 0 [] [] in
        and_wait (wait fuel (start + 10000) later now 0) (send_init (spawned sent) init)

  -- close: the read thread told to stop, the tasks aborted, the channel dropped
  unfoldable pub close : Connection → Connection
  close c = record c { shutdown = true; aborted = true; to_tun = false }

  -- such an error, or what the tasks came to
  abbrev pub attempted : Result Failed (Option Attempt) → Option (Result Failed Attempt)
  attempted (err e) = some (err e)
  attempted (ok none) = none
  attempted (ok (some a)) = some (ok a)

  module _ {Net : Type 0} (decode_base64 : Text → Option Bytes) (public_of : Bytes → Bytes)
      (sockets : Sockets) where
    -- In front of the tasks: the keys, the bridge with its task, and the socket.
    unfoldable pub prepare : ClientConfig Net → SocketAddr → ℕ → Result Failed (Wg noise)
    unfolding wg_of peer_of bind_of
    prepare cfg endpoint created = do
      wg ← failing false (wg_of decode_base64 public_of cfg created)
      peer ← failing false (peer_of cfg.endpoint sockets.bridge endpoint)
      failing (is_bridged cfg.endpoint) (ensure (sockets.binds (bind_of peer.ip)) no_socket)
      failing (is_bridged cfg.endpoint) (ensure (sockets.connects peer) (not_connected peer))
      ok wg

    -- The task of the bridge is one of those that a `Connection` tells to be aborted or not.
    unfoldable pub connect_to :
        ℕ
        → ClientConfig Net
        → SocketAddr
        → (created start : ℕ) (later : ℕ → Wg noise) → (ℕ → ℕ)
        → Option (Result Failed Attempt)
    unfolding prepare handshake
    connect_to fuel cfg endpoint created start later now =
        attempted (do
          wg ← prepare cfg endpoint created
          ok (handshake sockets.sends fuel wg start later now))
