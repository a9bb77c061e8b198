-- ===== src/Server/Flows.antt =====
-- crates/server/src/lib.rs: the limits on concurrent flows. The accept loop and the ends of the
-- flows' tasks interleave at every atomic operation: an event is one atomic operation of one of them.
pub mod Limits
pub mod Operations
pub mod Runs
use wg_wrapper.Base.{
  ℕ, zero, suc, ◌+◌, ◌-◌, ◌^◌, ◌%◌, ◌≡◌, ◌<◌, List, [], ◌∷◌, Option, none, some, length, get_elem?,
  set, leb, ◌==◌, if◌then◌else◌,
}
use wg_wrapper.Server.{max_flows, max_flows_per_peer}

-- Where the accept loop stands in one round: it waits for a stream, holds a permit for a flow of a
-- peer, has counted a flow over the cap, or has taken that count back.
pub data Stage : Type 0 where
  waiting : Stage
  permitted over : ℕ → Stage
  undone : Stage

-- `live` are the peers of the flows whose guard is alive; `closing` is the number of guards that
-- have given back their slot and not yet their permit.
pub record Table : Type 0 where
  pub permits : ℕ
  pub counts : List ℕ
  pub live : List ℕ
  pub closing : ℕ
  pub stage : Stage

-- AtomicUsize::fetch_add and fetch_sub, by one
abbrev pub up : ℕ → ℕ
up c = (c + 1) % 2 ^ 64

abbrev pub down : ℕ → ℕ
down c = (c + (2 ^ 64 - 1)) % 2 ^ 64

-- Semaphore::try_acquire_owned
pub try_acquire : ℕ → ℕ → Table → Table
try_acquire idx zero t = t
try_acquire idx (suc n) t = record t { permits = n; stage = permitted idx }

-- The count goes up, and the flow starts or has to be undone. A missing slot panics.
pub count : ℕ → Option ℕ → Table → Option Table
count idx none t = none
count idx (some c) t =
    if leb max_flows_per_peer c
    then some (record t { counts = set t.counts idx (up c); stage = over idx })
    else some (record t { counts = set t.counts idx (up c); stage = waiting; live = idx ∷ t.live })

pub uncount : ℕ → Option ℕ → Table → Option Table
uncount idx none t = none
uncount idx (some c) t = some (record t { counts = set t.counts idx (down c); stage = undone })

-- The next atomic operation of the accept loop; `idx` owns the source of the next stream.
unfoldable pub accept : ℕ → Stage → Table → Option Table
unfolding try_acquire count uncount
accept idx waiting t = some (try_acquire idx t.permits t)
accept idx (permitted i) t = count i (get_elem? t.counts i) t
accept idx (over i) t = uncount i (get_elem? t.counts i) t
accept idx undone t = some (record t { permits = t.permits + 1; stage = waiting })

abbrev pub remove : List ℕ → ℕ → List ℕ
remove [] pos = []
remove (x ∷ xs) zero = xs
remove (x ∷ xs) (suc pos) = x ∷ remove xs pos

pub give_back : ℕ → ℕ → Option ℕ → Table → Option Table
give_back pos idx none t = none
give_back pos idx (some c) t = some (record t {
  counts = set t.counts idx (down c);
  live = remove t.live pos;
  closing = t.closing + 1;
})

-- FlowGuard::drop, of the guard at a position of `live`.
pub drop_guard : ℕ → Option ℕ → Table → Option Table
unfolding give_back
drop_guard pos none t = some t
drop_guard pos (some idx) t = give_back pos idx (get_elem? t.counts idx) t

-- The permit of a guard goes back after its own `drop`.
pub drop_permit : ℕ → Table → Table
drop_permit zero t = t
drop_permit (suc n) t = record t { closing = n; permits = t.permits + 1 }

-- A stream of a peer for the accept loop, whose next operation it is; or a guard's two operations.
pub data Event : Type 0 where
  accepts ends : ℕ → Event
  releases : Event

unfoldable pub step : Event → Table → Option Table
unfolding accept drop_guard drop_permit
step (accepts idx) t = accept idx t.stage t
step (ends pos) t = drop_guard pos (get_elem? t.live pos) t
step releases t = some (drop_permit t.closing t)

-- A run, until a panic.
unfoldable pub run : List Event → Table → Option Table
unfolding step
run [] t = some t
run (e ∷ es) t = elim (step e t) [ none ↦ none | some t' ↦ run es t' ]

zeros : ℕ → List ℕ
zeros zero = []
zeros (suc n) = 0 ∷ zeros n

-- At the start, for that many peers.
unfoldable pub start : ℕ → Table
unfolding zeros
start peers = record {
  permits = max_flows;
  counts = zeros peers;
  live = [];
  closing = 0;
  stage = waiting;
}
