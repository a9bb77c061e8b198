-- ===== src/ClientWin/Dial/Restored.antt =====
-- A dial that fails leaves the system as it was, at whatever stage it fails.
use wg_wrapper.Base.{
  ℕ, suc, ◌+◌, ◌≤◌, ◌≡◌, refl, Bool, true, false, List, [], Bytes, Option, none, some, Result, ok,
  err,
}
use wg_wrapper.Addr.{SocketAddr}
use wg_wrapper.IpNet.{NetOps, NetText}
use wg_wrapper.Noise.{Noise}
use wg_wrapper.Text.{Text}
use wg_wrapper.Wg.Timers.{encapsulate}
use wg_wrapper.Wg.{Wg}
use wg_wrapper.WgClient.{ClientConfig}
use wg_wrapper.WgClient.Adapter.{Argv, Dev, Os}
use wg_wrapper.WgClient.Adapter.Undone.{Restored}
use wg_wrapper.WgClient.Adapter.Session.{
  Ready, Driver, Opening, unstarted, dropped, opened, win_open, Kept, drop_adapter-Restored,
  win_open-Kept,
}
use wg_wrapper.WgClient.Conf.{ConfError, parse_conf}
use wg_wrapper.WgClient.Connect.{ConnectError, Failed, Connection, Attempt, Sockets, connect_to}
use wg_wrapper.WgClient.Connect.Attempts.{Attempted, connect_to-Ends}
use wg_wrapper.WgClient.Connect.Waits.{seen_at, Concluded}
use wg_wrapper.WgClient.Resolve.{ResolveError, resolve_endpoint}
use wg_wrapper.ClientWin.Dial.{
  DialError, adapter_failed, handshake_failed, Dial, label_of, tunnel_of, outcome, conclude,
  connected, adapted, with_dll, resolved, parsed, dial,
}

module _ (noise : Noise) (ops : NetOps) (cidr : NetText ops) (decode_base64 : Text → Option Bytes)
    (public_of : Bytes → Bytes) (lookup_text : Text → Option (List SocketAddr))
    (lookup_host : Text → ℕ → Option (List SocketAddr)) (dll : Bool) (driver : Driver) (os : Os)
    (sockets : Sockets) (created start : ℕ) (later : ℕ → Wg noise) (now : ℕ → ℕ)
    (begins : start ≤ now 0) (sleeps : (k : ℕ) → now k + 25 ≤ now (suc k)) where
  -- a tunnel that runs, after a handshake was seen
  abbrev pub Up : Connection noise → Type 0
  Up c =
      ((k : ℕ) × (k ≤ 400) × (seen_at noise later now k ≡ true))
      × (c.shutdown ≡ false)
      × (c.aborted ≡ false)

  -- An error in front of `open`, or of the driver: no command was run. One behind: the adapter was
  -- dropped.
  abbrev pub Ended : DialError → List (Argv × Bool) → Type 0
  Ended (adapter_failed e) log = (name : Text) × (driver.name ≡ some name) × Restored name log
  Ended (handshake_failed e) log = (name : Text) × (driver.name ≡ some name) × Restored name log
  Ended _ log = log ≡ []

  -- An error, without an adapter. A tunnel: it is up, and the adapter keeps what its log asks for.
  abbrev pub Settled :
      Result DialError (Connection noise × Text) → List (Argv × Bool) → Option (Text × Dev) → Type 0
  Settled (err e) log none = Ended e log
  Settled (ok (c, label)) log (some (name, d)) =
      Up c × (d.log ≡ log) × (driver.name ≡ some name) × Ready ops cidr os d
  Settled _ log _ = ⊥

  -- a stage of `dial` that ends
  abbrev Stage : Option (Dial noise) → Type 0
  Stage o = (r : Dial noise) × (o ≡ some r) × Settled r.result r.log r.adapter

  outcome-Settled :
      (label name : Text) (d : Dev) (init : List Bytes) (c : Connection noise)
      (r : Result ConnectError (Unit {0}))
      → driver.name ≡ some name
      → Ready ops cidr os d
      → Concluded noise later now start begins sleeps sockets.sends init c r
      → let o =
          conclude noise ops cidr decode_base64 public_of lookup_text lookup_host dll driver os
            sockets created start later now label name d
            (outcome noise c r) in
        Settled o.result o.log o.adapter
  outcome-Settled label name d init c (err e) called m v =
      (name, called, drop_adapter-Restored ops cidr os name d m)
  outcome-Settled label name d init c (ok tt) called m v = (v, refl, called, m)

  conclude-Settled :
      (cfg : ClientConfig ops.Net) (server : SocketAddr) (label name : Text) (d : Dev)
      (wg : Wg noise) (r : Result Failed (Attempt noise))
      → driver.name ≡ some name
      → Ready ops cidr os d
      → Attempted ops cidr decode_base64 noise public_of sockets created later now start begins
          sleeps cfg server wg r
      → let o =
          conclude noise ops cidr decode_base64 public_of lookup_text lookup_host dll driver os
            sockets created start later now label name d
            (tunnel_of noise r) in
        Settled o.result o.log o.adapter
  conclude-Settled cfg server label name d wg (err e) called m v =
      (name, called, drop_adapter-Restored ops cidr os name d m)
  conclude-Settled cfg server label name d wg (ok a) called m v =
      outcome-Settled label name d (encapsulate noise wg 0 [] []).1 a.connection a.result called m v

  connected-Stage :
      (conf : Text) (cfg : ClientConfig ops.Net) (server : SocketAddr) (label name : Text) (d : Dev)
      → parse_conf ops cidr decode_base64 conf ≡ ok cfg
      → driver.name ≡ some name
      → Ready ops cidr os d
      → Stage (
          connected noise ops cidr decode_base64 public_of lookup_text lookup_host dll driver os
            sockets created start later now label name d
            (connect_to noise decode_base64 public_of sockets 401 cfg server created start later
              now))
  connected-Stage conf cfg server label name d p called m =
      let (wg, public, o, _, _, e, v) =
        connect_to-Ends ops cidr decode_base64 noise public_of sockets created later now start
          begins sleeps conf cfg server p in
      (
        conclude noise ops cidr decode_base64 public_of lookup_text lookup_host dll driver os
            sockets created start later now label name d (tunnel_of noise o),
        rw e refl,
        conclude-Settled cfg server label name d wg o called m v,
      )

  adapted-Stage :
      (conf : Text) (cfg : ClientConfig ops.Net) (server : SocketAddr) (o : Opening)
      → parse_conf ops cidr decode_base64 conf ≡ ok cfg
      → Kept ops cidr os driver.name o
      → Stage (
          adapted noise ops cidr decode_base64 public_of lookup_text lookup_host dll driver os
            sockets created start later now 401 cfg server o)
  adapted-Stage conf cfg server (unstarted e) p k = (_, refl, refl)
  adapted-Stage conf cfg server (dropped e d) p k = (_, refl, k)
  adapted-Stage conf cfg server (opened name d) p (called, m) =
      connected-Stage conf cfg server (label_of cfg.endpoint) name d p called m

  with_dll-Stage :
      (conf : Text) (cfg : ClientConfig ops.Net) (server : SocketAddr) (b : Bool)
      → parse_conf ops cidr decode_base64 conf ≡ ok cfg
      → Stage (
          with_dll noise ops cidr decode_base64 public_of lookup_text lookup_host dll driver os
            sockets created start later now 401 cfg server b)
  with_dll-Stage conf cfg server false p = (_, refl, refl)
  with_dll-Stage conf cfg server true p =
      adapted-Stage conf cfg server (win_open ops cidr os driver cfg server.ip) p
        (win_open-Kept ops cidr os driver cfg server.ip)

  resolved-Stage :
      (conf : Text) (cfg : ClientConfig ops.Net) (r : Result ResolveError SocketAddr)
      → parse_conf ops cidr decode_base64 conf ≡ ok cfg
      → Stage (
          resolved noise ops cidr decode_base64 public_of lookup_text lookup_host dll driver os
            sockets created start later now 401 cfg r)
  resolved-Stage conf cfg (err e) p = (_, refl, refl)
  resolved-Stage conf cfg (ok server) p = with_dll-Stage conf cfg server dll p

  parsed-Stage :
      (conf : Text) (r : Result ConfError (ClientConfig ops.Net))
      → parse_conf ops cidr decode_base64 conf ≡ r
      → Stage (
          parsed noise ops cidr decode_base64 public_of lookup_text lookup_host dll driver os
            sockets created start later now 401 r)
  parsed-Stage conf (err e) p = (_, refl, refl)
  parsed-Stage conf (ok cfg) p =
      resolved-Stage conf cfg (resolve_endpoint lookup_text lookup_host cfg.endpoint) p

  -- If each pause takes its 25 ms, a dial ends for every text, whatever the resolver, the driver,
  -- the system and the sockets answer. If it fails, no adapter is kept. If it fails before the
  -- driver's session has started, no command was run; behind that, after the commands of `open` the
  -- inverses of the routes, metrics and rules that had succeeded were run, the last first, and then
  -- the DNS servers of the adapter were reset exactly if `open` had got past its DNS commands, the
  -- last of which is the flush of the cache. If it succeeds, a handshake was seen, the tasks run,
  -- and the adapter keeps what `Drop` needs to do the same.
  pub dial-Settled :
      (conf : Text)
      → (r : Dial noise) × (dial noise ops cidr decode_base64 public_of lookup_text lookup_host dll
            driver os sockets created start later now 401 conf
          ≡ some r)
        × Settled r.result r.log r.adapter
  unfolding dial
  dial-Settled conf = parsed-Stage conf (parse_conf ops cidr decode_base64 conf) refl
