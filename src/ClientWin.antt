-- ===== src/ClientWin.antt =====
-- crates/client-win/src-tauri/src/main.rs: the session behind the commands `connect` and
-- `disconnect`. The lock is held in parts of a command: `connect` begins, dials without the lock,
-- and records the outcome; a tunnel is a number,
-- and so is the adapter that comes with it.
pub mod Sessions
pub mod Names
pub mod Dial
pub mod Profiles
use wg_wrapper.Base.{ℕ, zero, suc, List, [], ◌∷◌, Option, none, some, Bool, filter, not, ◌==◌}
use wg_wrapper.Text.{Text}

pub data State : Type 0 where
  disconnected connecting connected failed : State

pub record Session : Type 0 where
  pub state : State
  pub error : Option Text
  pub endpoint : Option Text
  pub tunnel : Option ℕ
  pub adapter : Option ℕ

-- The session, the commands that are dialing, the tunnels that are up, the adapters that are not
-- dropped, and the next one.
pub record Client : Type 0 where
  pub session : Session
  pub dialing : ℕ
  pub up : List ℕ
  pub adapters : List ℕ
  pub next : ℕ

-- The first part of `connect`: a session with a tunnel refuses.
unfoldable pub begin : Option ℕ → Client → Client
begin (some t) c = c
begin none c = record c {
  session = record c.session { state = connecting; error = none; endpoint = none };
  dialing = suc c.dialing;
}

-- Tunnel::close of the one that was taken out of the session, and the drop of its adapter
pub close : Option ℕ → List ℕ → List ℕ
close none up = up
close (some t) up = filter (λ u. not (u == t)) up

-- The end of the dial, with the endpoint's label or an error.
pub data Outcome : Type 0 where
  dialed refused : Text → Outcome

-- A new adapter takes the place of one that the session has, which is dropped.
unfoldable pub conclude : ℕ → Outcome → Client → Client
unfolding close
conclude zero o c = c
conclude (suc n) (dialed label) c = record c {
  session = record c.session {
    state = connected;
    endpoint = some label;
    tunnel = some c.next;
    adapter = some c.next;
  };
  dialing = n;
  up = c.next ∷ c.up;
  adapters = c.next ∷ close c.session.adapter c.adapters;
  next = suc c.next;
}
conclude (suc n) (refused e) c = record c {
  session = record c.session { state = failed; error = some e };
  dialing = n;
}

unfoldable pub disconnect : Client → Client
unfolding close
disconnect c = record c {
  session = record {
    state = disconnected;
    error = none;
    endpoint = none;
    tunnel = none;
    adapter = none;
  };
  up = close c.session.tunnel c.up;
  adapters = close c.session.adapter c.adapters;
}

-- The parts of commands, in any interleaving.
pub data Event : Type 0 where
  begins disconnects : Event
  concludes : Outcome → Event

unfoldable pub step : Client → Event → Client
unfolding begin conclude disconnect
step c begins = begin c.session.tunnel c
step c (concludes o) = conclude c.dialing o c
step c disconnects = disconnect c

unfoldable pub run : Client → List Event → Client
unfolding step
run c [] = c
run c (e ∷ es) = run (step c e) es
