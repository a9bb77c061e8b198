-- ===== src/WsRelay/Mapping.antt =====
-- crates/wsrelay/src/lib.rs: `run_client_to`, which gives each local source its own connection.
pub mod Owner
use wg_wrapper.Base.{
  ℕ, ◌+◌, Bool, true, false, not, ◌&&◌, List, [], ◌∷◌, ◌++◌, Bytes, Option, none, some, length, any,
  filter, ltb, ◌==◌, if◌then◌else◌,
}
use wg_wrapper.Addr.{IpAddr, v4, v6, SocketAddr}
use wg_wrapper.WsRelay.{queue_capacity}

pub ip_eq : IpAddr → IpAddr → Bool
ip_eq (v4 a) (v4 b) = a == b
ip_eq (v6 a) (v6 b) = a == b
ip_eq (v4 a) (v6 b) = false
ip_eq (v6 a) (v4 b) = false

pub addr_eq : SocketAddr → SocketAddr → Bool
unfolding ip_eq
addr_eq a b = ip_eq a.ip b.ip && a.port == b.port

-- A connection is its index in `spawned`, the sources that tasks were spawned for; `peers` is the
-- map, `closed` the tasks that have returned, `queued` what the channels hold.
pub record Bridge : Type 0 where
  pub peers : List (SocketAddr × ℕ)
  pub spawned : List SocketAddr
  pub closed : List ℕ
  pub queued : List (ℕ × Bytes)

abbrev pub is_closed : Bridge → ℕ → Bool
is_closed b id = any (λ c. c == id) b.closed

-- HashMap::get
unfoldable pub get : SocketAddr → List (SocketAddr × ℕ) → Option ℕ
unfolding addr_eq
get src [] = none
get src ((key, id) ∷ peers) = if addr_eq key src then some id else get src peers

-- HashMap::insert
pub insert : SocketAddr → ℕ → List (SocketAddr × ℕ) → List (SocketAddr × ℕ)
unfolding addr_eq
insert src id [] = (src, id) ∷ []
insert src id ((key, old) ∷ peers) =
    let rest = insert src id peers in
    if addr_eq key src then (key, id) ∷ peers else (key, old) ∷ rest

abbrev waiting_of : ℕ → List (ℕ × Bytes) → List (ℕ × Bytes)
waiting_of id = filter (λ q. q.0 == id)

-- try_send, on the channel of a connection
pub send : Bridge → ℕ → Bytes → Bridge
send b id d =
    if is_closed b id
    then b
    else if ltb (length (waiting_of id b.queued)) queue_capacity
    then record b { queued = b.queued ++ (id, d) ∷ [] }
    else b

pub spawn : Bridge → SocketAddr → Bytes → Bridge
unfolding insert send
spawn b src d =
    let id = length b.spawned in
    send (record b { spawned = b.spawned ++ src ∷ []; peers = insert src id b.peers }) id d

pub send_or_spawn : Bridge → SocketAddr → Bytes → Option ℕ → Bridge
unfolding spawn send
send_or_spawn b src d none = spawn b src d
send_or_spawn b src d (some id) = if is_closed b id then spawn b src d else send b id d

-- A datagram of the local socket.
unfoldable pub on_datagram : Bridge → SocketAddr → Bytes → Bridge
unfolding send_or_spawn get
on_datagram b src d = send_or_spawn b src d (get src b.peers)

-- The sweep.
unfoldable pub sweep : Bridge → Bridge
sweep b = record b { peers = filter (λ p. not (is_closed b p.1)) b.peers }

-- What happens to a bridge: a datagram, a task that returns, a task that takes a datagram of its
-- channel, a sweep.
pub data Event : Type 0 where
  arrives : SocketAddr → Bytes → Event
  returns takes : ℕ → Event
  sweeps : Event

pub take_first : ℕ → List (ℕ × Bytes) → List (ℕ × Bytes)
take_first id [] = []
take_first id ((j, d) ∷ queued) =
    let rest = take_first id queued in if j == id then queued else (j, d) ∷ rest

unfoldable pub step : Bridge → Event → Bridge
unfolding on_datagram sweep take_first
step b (arrives src d) = on_datagram b src d
step b (returns id) = record b { closed = id ∷ b.closed }
step b (takes id) = record b { queued = take_first id b.queued }
step b sweeps = sweep b

unfoldable pub run : Bridge → List Event → Bridge
unfolding step
run b [] = b
run b (e ∷ es) = run (step b e) es
