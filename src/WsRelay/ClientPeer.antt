-- ===== src/WsRelay/ClientPeer.antt =====
-- crates/wsrelay/src/lib.rs: `client_peer`, one local source on one WebSocket connection that is
-- dialed again until the mapping goes idle.
pub mod Backoff
use wg_wrapper.Base.{ℕ, ◌+◌, ◌*◌, min, Bool, List, [], ◌∷◌, ◌++◌, Bytes, leb, if◌then◌else◌}
use wg_wrapper.WsRelay.{idle_after, backoff_min, backoff_max}

-- Where the task stands: in a dial, in the loop over an open connection, in the sleep before the
-- next dial, or returned.
pub data Phase : Type 0 where
  dialing connected sleeping returned : Phase

pub record Client : Type 0 where
  pub phase : Phase
  pub backoff : ℕ
  pub deadline : ℕ
  pub sent : List Bytes
  pub delivered : List Bytes

-- What the task waits for: the end of a dial or of the sleep; a datagram of the queue, with whether
-- the write succeeds, or the queue's end; a binary message, another one, or the connection's end;
-- the idle timer.
pub data Event : Type 0 where
  dialed dial_failed woke queue_ended other_message lost timed_out : Event
  queued : Bytes → Bool → Event
  binary : Bytes → Event

-- At the start of the task.
unfoldable pub start : ℕ → Client
start now = record {
  phase = dialing;
  backoff = backoff_min;
  deadline = now + idle_after;
  sent = [];
  delivered = [];
}

-- Behind a connection or a failed dial.
unfoldable pub give_up_or_sleep : ℕ → Client → Client
give_up_or_sleep now c =
    if leb c.deadline now then record c { phase = returned } else record c { phase = sleeping }

pub on_queued : ℕ → Client → Bytes → Bool → Client
unfolding give_up_or_sleep
on_queued now c d written =
    let alive = record c { deadline = now + idle_after } in
    if written then record alive { sent = c.sent ++ d ∷ [] } else give_up_or_sleep now alive

-- The arms of the select over an open connection.
pub in_connection : ℕ → Client → Event → Client
unfolding give_up_or_sleep on_queued
in_connection now c (queued d written) = on_queued now c d written
in_connection now c queue_ended = record c { phase = returned }
in_connection now c (binary b) = record c {
  deadline = now + idle_after;
  delivered = c.delivered ++ b ∷ [];
}
in_connection now c other_message = c
in_connection now c lost = give_up_or_sleep now c
in_connection now c timed_out = if leb c.deadline now then record c { phase = returned } else c
in_connection now c dialed = c
in_connection now c dial_failed = c
in_connection now c woke = c

pub in_dial : ℕ → Client → Event → Client
unfolding give_up_or_sleep
in_dial now c dialed = record c { phase = connected; backoff = backoff_min }
in_dial now c dial_failed = give_up_or_sleep now c
in_dial now c _ = c

pub in_sleep : Client → Event → Client
in_sleep c woke = record c { phase = dialing; backoff = min (c.backoff * 2) backoff_max }
in_sleep c _ = c

-- One event at a time; an event that the phase does not wait for changes nothing.
unfoldable pub step : Phase → ℕ → Client → Event → Client
unfolding in_dial in_connection in_sleep
step dialing now c e = in_dial now c e
step connected now c e = in_connection now c e
step sleeping now c e = in_sleep c e
step returned now c e = c

-- A dial that fails, and the sleep behind it; the new time comes with the state.
pub failed_round : Phase → ℕ → ℕ → Client → Client × ℕ
unfolding step
failed_round phase took now c =
    let failed = step phase (now + took) c dial_failed in
    let later = now + took + failed.backoff in (step failed.phase later failed woke, later)

-- Dials that all fail: each takes some time, and the sleep behind it the back-off.
unfoldable pub failing : List ℕ → ℕ → Client → Client
unfolding failed_round
failing [] now c = c
failing (took ∷ ts) now c =
    let (again, later) = failed_round c.phase took now c in failing ts later again
