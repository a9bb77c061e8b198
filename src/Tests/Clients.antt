-- ===== src/Tests/Clients.antt =====
-- The theorems on relayed connections and on the Windows client's session at concrete runs.
use wg_wrapper.Base.{ℕ, ◌≡◌, refl, true, List, [], ◌∷◌, none, inl}
use wg_wrapper.ClientWin.Sessions.{Tracked, run-Tracked}
use wg_wrapper.ClientWin.{Client, Event, disconnected, begins, disconnects, concludes, dialed, run}
use wg_wrapper.Text.{codes}
use wg_wrapper.WsRelay.Conn
use wg_wrapper.WsRelay.Conn.Pumped.{Adds, run-Adds}
use wg_wrapper.WsRelay.Conn.{Limit, LimitEvent, accepts, finishes, serve_limited}

abbrev traffic : List (ℕ × Conn.Event)
traffic =
    (5, Conn.binary (1 ∷ []))
    ∷ (6, Conn.datagram (2 ∷ []) true)
    ∷ (7, Conn.ping_due true)
    ∷ (8, Conn.closed)
    ∷ []

run-Adds_example : Adds (Conn.start 0) (Conn.run (Conn.start 0) traffic) traffic
run-Adds_example = run-Adds traffic (Conn.start 0)

abbrev launched : Client
launched = record {
  session = record {
    state = disconnected;
    error = none;
    endpoint = none;
    tunnel = none;
    adapter = none;
  };
  dialing = 0;
  up = [];
  adapters = [];
  next = 0;
}

abbrev commands : List Event
commands = begins ∷ disconnects ∷ concludes (dialed (codes "h:51820")) ∷ disconnects ∷ []

launched-Tracked : Tracked launched
launched-Tracked = record {
  known = refl;
  kept = refl;
  together = refl;
  shown = λ t e. cc;
  alone = inl refl;
}

run-Tracked_example : Tracked (run launched commands)
run-Tracked_example = run-Tracked commands launched (refl, (tt, (tt, (tt, tt)))) launched-Tracked

-- Two dials at once: the second tunnel replaces the first, which stays up behind a disconnect.
overlapping_dials_leak :
    (run launched
      (begins ∷ begins ∷ concludes (dialed []) ∷ concludes (dialed []) ∷ disconnects ∷ [])).up
    ≡ 0 ∷ []
unfolding run
overlapping_dials_leak = refl
