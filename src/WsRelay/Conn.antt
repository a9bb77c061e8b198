-- ===== src/WsRelay/Conn.antt =====
-- crates/wsrelay/src/lib.rs: `relay_conn`, one accepted connection between its WebSocket and its UDP
-- socket, and the limit on connections of `serve_limited`.
pub mod Pumped
use wg_wrapper.Base.{
  ℕ, zero, suc, ◌+◌, Bool, true, false, List, [], ◌∷◌, ◌++◌, Bytes, length, leb, if◌then◌else◌,
}
use wg_wrapper.WsRelay.{idle_after, max_datagram}

-- The arms of the select: a binary message, another one, the end or an error of the connection; a
-- datagram of the target or an error of the socket; the ping interval; the idle timer. A write to
-- the WebSocket succeeds or ends the task.
pub data Event : Type 0 where
  binary : Bytes → Event
  other_message closed udp_failed timed_out : Event
  datagram : Bytes → Bool → Event
  ping_due : Bool → Event

pub data Message : Type 0 where
  data_message : Bytes → Message
  ping : Message

-- What went out on both sides, and when the connection is idle.
pub record Conn : Type 0 where
  pub deadline : ℕ
  pub to_target : List Bytes
  pub to_peer : List Message
  pub ended : Bool

unfoldable pub start : ℕ → Conn
start now = record { deadline = now + idle_after; to_target = []; to_peer = []; ended = false }

abbrev pub forwarded : Bytes → List Bytes
forwarded b = if leb (length b) max_datagram then b ∷ [] else []

-- One arm; the idle timer fires only behind the deadline.
unfoldable pub step : ℕ → Conn → Event → Conn
step now c (binary b) = record c {
  deadline = now + idle_after;
  to_target = c.to_target ++ forwarded b;
}
step now c other_message = c
step now c closed = record c { ended = true }
step now c udp_failed = c
step now c (datagram b sent) = record c {
  deadline = now + idle_after;
  to_peer = c.to_peer ++ (if sent then data_message b ∷ [] else []);
  ended = if sent then c.ended else true;
}
step now c (ping_due sent) = record c {
  to_peer = c.to_peer ++ (if sent then ping ∷ [] else []);
  ended = if sent then c.ended else true;
}
step now c timed_out = if leb c.deadline now then record c { ended = true } else c

-- The loop, over events with their times.
unfoldable pub run : Conn → List (ℕ × Event) → Conn
unfolding step
run c [] = c
run c ((now, e) ∷ es) = let rest = run (step now c e) es in if c.ended then c else rest

-- The permits of `serve_limited`, and the tasks that hold one.
pub record Limit : Type 0 where
  pub permits : ℕ
  pub tasks : ℕ

pub data LimitEvent : Type 0 where
  accepts finishes : LimitEvent

pub accept : ℕ → Limit → Limit
accept zero l = l
accept (suc n) l = record { permits = n; tasks = l.tasks + 1 }

pub finish : ℕ → Limit → Limit
finish zero l = l
finish (suc n) l = record { permits = l.permits + 1; tasks = n }

-- At the limit a connection is refused.
unfoldable pub serve_limited : Limit → List LimitEvent → Limit
unfolding accept finish
serve_limited l [] = l
serve_limited l (accepts ∷ es) = serve_limited (accept l.permits l) es
serve_limited l (finishes ∷ es) = serve_limited (finish l.tasks l) es

abbrev max_conns : ℕ
max_conns = 1024

-- From the first connection on, with every permit free.
unfoldable pub serve : List LimitEvent → Limit
unfolding serve_limited
serve es = serve_limited (record { permits = max_conns; tasks = 0 }) es
