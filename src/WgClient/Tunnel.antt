-- ===== src/WgClient/Tunnel.antt =====
-- crates/wgclient/src/lib.rs: the tasks of a `Tunnel` on what they share, each round of a task as
-- one step. The counters are u64 and wrap; the socket's and the device's answers are arguments.
pub mod Counters
pub mod Ipv6
pub mod Device
use wg_wrapper.Base.{
  ℕ, ◌+◌, ◌-◌, ◌/◌, ◌%◌, ◌^◌, Bool, true, false, List, [], ◌∷◌, ◌++◌, map, Bytes, Option, none,
  some, length, leb, ◌==◌, if◌then◌else◌,
}
use wg_wrapper.Addr.{SocketAddr}
use wg_wrapper.Noise.{Noise}
use wg_wrapper.Wg.Timers.{encapsulate, update_timers, time_since_last_handshake}
use wg_wrapper.Wg.{Wg, Received, recv_from_network}

-- p.first().is_some_and(|b| b>>4==6)
abbrev pub is_v6 : Bytes → Bool
is_v6 [] = false
is_v6 (b ∷ _) = b / 2 ^ 4 == 6

-- fetch_add of an AtomicU64
abbrev pub fetch_add : ℕ → ℕ → ℕ
fetch_add counter n = (counter + n) % 2 ^ 64

-- one round of a task; the device may also stop taking packets
pub data Event : Type 0 where
  received : Bytes → Event
  from_tun : Bytes → Event
  tick : (now : ℕ) → Event
  tun_refuses : Event

module _ (noise : Noise) where
  -- What the tasks share: the endpoint, the counters, what the socket and the device were given,
  -- whether the thread that writes to the device still takes packets, and whether the task that
  -- reads the socket still runs.
  pub record Tunnel : Type 0 where
    pub wg : Wg noise
    pub rx : ℕ
    pub tx : ℕ
    pub v6_dropped : ℕ
    pub net : List Bytes
    pub tun : List Bytes
    pub writing : Bool
    pub reading : Bool

  -- for d in &net_out: counted, and sent without a look at the result
  unfoldable pub send_all : Tunnel → List Bytes → Tunnel
  send_all t [] = t
  send_all t (d ∷ ds) =
      send_all (record t { tx = fetch_add t.tx (length d); net = t.net ++ d ∷ [] }) ds

  -- for p in ip_out.drain(..): the task returns when the device takes no more
  unfoldable pub forward : Tunnel → List Bytes → Tunnel
  forward t [] = t
  forward t (p ∷ ps) =
      let rest = forward (record t { tun = t.tun ++ p ∷ [] }) ps in
      if t.writing then rest else record t { reading = false }

  after_receive : Tunnel → Option (Received noise) → Option Tunnel
  unfolding send_all forward
  after_receive t none = none
  after_receive t (some r) = some (forward (send_all (record t { wg = r.wg }) r.net_out) r.ip_out)

  -- The task that reads the socket; `none` means that the fuel ran out.
  unfoldable pub on_datagram : ℕ → SocketAddr → Tunnel → Bytes → Option Tunnel
  unfolding after_receive
  on_datagram fuel peer t d =
      let counted = record t { rx = fetch_add t.rx (length d) } in
      if t.reading
      then after_receive counted (recv_from_network noise fuel t.wg peer d [] [])
      else some t

  -- The task that takes the packets of the device.
  unfoldable pub on_packet : Tunnel → Bytes → Tunnel
  unfolding send_all
  on_packet t p =
      let (wg, net_out) = encapsulate noise t.wg 0 p [] in
      if is_v6 p
      then record t { v6_dropped = fetch_add t.v6_dropped 1 }
      else send_all (record t { wg = wg }) net_out

  -- The task of the timers.
  unfoldable pub on_tick : Tunnel → ℕ → Tunnel
  unfolding send_all
  on_tick t now =
      let (wg, out) = update_timers noise t.wg now [] in
      send_all (record t { wg = wg }) (map (λ (i, d). d) out)

  unfoldable pub step : ℕ → SocketAddr → Tunnel → Event → Option Tunnel
  unfolding on_datagram on_packet on_tick
  step fuel peer t (received d) = on_datagram fuel peer t d
  step fuel peer t (from_tun p) = some (on_packet t p)
  step fuel peer t (tick now) = some (on_tick t now)
  step fuel peer t tun_refuses = some (record t { writing = false })

  abbrev pub and_then {ℓ} : {A : Type ℓ} → Option Tunnel → (Tunnel → Option A) → Option A
  and_then none next = none
  and_then (some t) next = next t

  -- The rounds in the order in which they take the lock.
  unfoldable pub run : ℕ → SocketAddr → Tunnel → List Event → Option Tunnel
  unfolding step
  run fuel peer t [] = some t
  run fuel peer t (e ∷ es) = and_then (step fuel peer t e) (λ t. run fuel peer t es)

  pub record Stats : Type 0 where
    pub rx_bytes : ℕ
    pub tx_bytes : ℕ
    pub v6_dropped : ℕ
    pub last_handshake : Option ℕ

  -- SystemTime::now().checked_sub(d)
  abbrev ago : ℕ → Option ℕ → Option ℕ
  ago now none = none
  ago now (some d) = if leb d now then some (now - d) else none

  unfoldable pub stats : Tunnel → ℕ → Stats
  unfolding time_since_last_handshake
  stats t now = record {
    rx_bytes = t.rx;
    tx_bytes = t.tx;
    v6_dropped = t.v6_dropped;
    last_handshake = ago now (time_since_last_handshake noise t.wg 0);
  }
