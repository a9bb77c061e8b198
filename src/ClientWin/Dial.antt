-- ===== src/ClientWin/Dial.antt =====
-- crates/client-win/src-tauri/src/main.rs: `dial` on Windows, which brings the tunnel up. The
-- resolver, the driver, the system and the sockets are arguments, and the path of the driver's
-- library is found or not. The adapter is dropped when the tunnel does not come up.
pub mod Restored
use wg_wrapper.Base.{ℕ, Bool, true, false, List, [], Bytes, Option, none, some, Result, ok, err}
use wg_wrapper.Addr.{SocketAddr}
use wg_wrapper.Addr.Display.{display_socket}
use wg_wrapper.IpNet.{NetOps, NetText}
use wg_wrapper.Noise.{Noise}
use wg_wrapper.Text.{Text}
use wg_wrapper.Wg.{Wg}
use wg_wrapper.WgClient.{Endpoint, udp, udp_host, ws, ClientConfig}
use wg_wrapper.WgClient.Adapter.{Argv, OpenError, Dev, Os, drop_adapter}
use wg_wrapper.WgClient.Adapter.Session.{
  Driver, DriverError, Opening, unstarted, dropped, opened, win_open,
}
use wg_wrapper.WgClient.Conf.{ConfError, parse_conf}
use wg_wrapper.WgClient.Connect.{ConnectError, Failed, Connection, Attempt, Sockets, connect_to}
use wg_wrapper.WgClient.Resolve.{ResolveError, resolve_endpoint}

-- the stage that failed
pub data DialError : Type 0 where
  config_failed : ConfError → DialError
  resolve_failed : ResolveError → DialError
  dll_failed : DialError
  driver_failed : DriverError → DialError
  adapter_failed : OpenError → DialError
  handshake_failed : ConnectError → DialError

-- How the endpoint is shown.
unfoldable pub label_of : Endpoint → Text
unfolding display_socket
label_of (udp a) = display_socket a
label_of (udp_host h) = h
label_of (ws url _) = url

module _ (noise : Noise) where
  -- The tunnel and its label or an error, the commands that were run, and the adapter that is kept.
  pub record Dial : Type 0 where
    pub result : Result DialError (Connection noise × Text)
    pub log : List (Argv × Bool)
    pub adapter : Option (Text × Dev)

  -- an error without an adapter
  abbrev pub refused : DialError → List (Argv × Bool) → Dial
  refused e log = record { result = err e; log = log; adapter = none }

  abbrev pub outcome :
      Connection noise → Result ConnectError (Unit {0}) → Result ConnectError (Connection noise)
  outcome c (err e) = err e
  outcome c (ok _) = ok c

  abbrev pub tunnel_of : Result Failed (Attempt noise) → Result ConnectError (Connection noise)
  tunnel_of (err f) = err f.error
  tunnel_of (ok a) = outcome a.connection a.result

  module _ (ops : NetOps) (cidr : NetText ops) (decode_base64 : Text → Option Bytes)
      (public_of : Bytes → Bytes) (lookup_text : Text → Option (List SocketAddr))
      (lookup_host : Text → ℕ → Option (List SocketAddr)) (dll : Bool) (driver : Driver) (os : Os)
      (sockets : Sockets) (created start : ℕ) (later : ℕ → Wg noise) (now : ℕ → ℕ) where
    abbrev pub conclude : Text → Text → Dev → Result ConnectError (Connection noise) → Dial
    conclude label name d (err e) = refused (handshake_failed e) (drop_adapter os name d).log
    conclude label name d (ok c) = record {
      result = ok (c, label);
      log = d.log;
      adapter = some (name, d);
    }

    abbrev pub connected : Text → Text → Dev → Option (Result Failed (Attempt noise)) → Option Dial
    connected label name d none = none
    connected label name d (some r) = some (conclude label name d (tunnel_of r))

    abbrev pub adapted : ℕ → ClientConfig ops.Net → SocketAddr → Opening → Option Dial
    adapted fuel cfg server (unstarted e) = some (refused (driver_failed e) [])
    adapted fuel cfg server (dropped e d) = some (refused (adapter_failed e) d.log)
    adapted fuel cfg server (opened name d) =
        connected (label_of cfg.endpoint) name d
          (connect_to noise decode_base64 public_of sockets fuel cfg server created start later now)

    abbrev pub with_dll : ℕ → ClientConfig ops.Net → SocketAddr → Bool → Option Dial
    with_dll fuel cfg server false = some (refused dll_failed [])
    with_dll fuel cfg server true =
        adapted fuel cfg server (win_open ops cidr os driver cfg server.ip)

    abbrev pub resolved : ℕ → ClientConfig ops.Net → Result ResolveError SocketAddr → Option Dial
    resolved fuel cfg (err e) = some (refused (resolve_failed e) [])
    resolved fuel cfg (ok server) = with_dll fuel cfg server dll

    abbrev pub parsed : ℕ → Result ConfError (ClientConfig ops.Net) → Option Dial
    parsed fuel (err e) = some (refused (config_failed e) [])
    parsed fuel (ok cfg) = resolved fuel cfg (resolve_endpoint lookup_text lookup_host cfg.endpoint)

    -- `none` means that the fuel of the wait for the handshake ran out.
    unfoldable pub dial : ℕ → Text → Option Dial
    unfolding parse_conf resolve_endpoint win_open connect_to drop_adapter label_of
    dial fuel conf = parsed fuel (parse_conf ops cidr decode_base64 conf)
