-- ===== src/WsRelay/ClientPeer/Backoff.antt =====
-- The back-off stays within its bounds and doubles, and a mapping that reaches nobody ends.
use wg_wrapper.Base.{
  ℕ, ◌+◌, ◌*◌, ◌<◌, ◌≤◌, ◌≡◌, refl, sym, ap, ◌∙◌, subst, min, Bool-cases, true, false, List, [],
  ◌∷◌, arith, inl, inr, length, leb, ◌⊎◌,
}
use wg_wrapper.WsRelay.ClientPeer.{
  Phase, dialing, connected, sleeping, returned, Client, Event, dialed, dial_failed, woke,
  queue_ended, other_message, lost, timed_out, queued, binary, start, give_up_or_sleep, on_queued,
  in_connection, in_dial, in_sleep, step, failed_round, failing,
}
use wg_wrapper.WsRelay.{idle_after, backoff_min, backoff_max}

abbrev pub Bounded : Client → Type 0
Bounded c = (backoff_min ≤ c.backoff) × (c.backoff ≤ backoff_max)

-- What a step may do to the back-off and to the traffic.
pub record Steps (now : ℕ) (c c' : Client) (e : Event) : Type 0 where
  pub bounded : Bounded c → Bounded c'
  pub doubles :
      (c'.backoff ≡ c.backoff)
      ⊎ ((e ≡ woke) × (c'.backoff ≡ min (c.backoff * 2) backoff_max))
      ⊎ ((e ≡ dialed) × (c'.backoff ≡ backoff_min))
  pub waits : (c'.deadline ≡ c.deadline) ⊎ (c'.deadline ≡ now + idle_after)

-- A step that leaves the back-off and the deadline alone.
quiet :
    (now : ℕ) (c c' : Client) (e : Event)
    → c'.backoff ≡ c.backoff
    → (c'.deadline ≡ c.deadline) ⊎ (c'.deadline ≡ now + idle_after)
    → Steps now c c' e
quiet now c c' e same waits = record {
  bounded = λ b. (omega (arith, b.0, same), omega (arith, b.1, same));
  doubles = inl same;
  waits = waits;
}

give_up_or_sleep-keeps :
    (now : ℕ) (c : Client)
    → ((give_up_or_sleep now c).backoff ≡ c.backoff)
      × ((give_up_or_sleep now c).deadline ≡ c.deadline)
unfolding give_up_or_sleep
give_up_or_sleep-keeps now c = elim (Bool-cases (leb c.deadline now)) [
  | inl late ↦ rw late (refl, refl)
  | inr early ↦ rw early (refl, refl)
]

give_up_or_sleep-Steps :
    (now : ℕ) (c c' : Client) (e : Event)
    → c'.backoff ≡ c.backoff
    → (c'.deadline ≡ c.deadline) ⊎ (c'.deadline ≡ now + idle_after)
    → Steps now c (give_up_or_sleep now c') e
give_up_or_sleep-Steps now c c' e same waits =
    let (b, d) = give_up_or_sleep-keeps now c' in
    quiet now c (give_up_or_sleep now c') e (b ∙ same)
      (subst (λ n. (n ≡ c.deadline) ⊎ (n ≡ now + idle_after)) (sym d) waits)

in_connection-Steps : (now : ℕ) (c : Client) (e : Event) → Steps now c (in_connection now c e) e
unfolding in_connection on_queued
in_connection-Steps now c (queued d true) = quiet now c _ _ refl (inr refl)
in_connection-Steps now c (queued d false) =
    give_up_or_sleep-Steps now c (record c { deadline = now + idle_after }) _ refl (inr refl)
in_connection-Steps now c queue_ended = quiet now c _ _ refl (inl refl)
in_connection-Steps now c (binary b) = quiet now c _ _ refl (inr refl)
in_connection-Steps now c other_message = quiet now c _ _ refl (inl refl)
in_connection-Steps now c lost = give_up_or_sleep-Steps now c c _ refl (inl refl)
in_connection-Steps now c timed_out = elim (Bool-cases (leb c.deadline now)) [
  | inl late ↦ rw late (quiet now c _ _ refl (inl refl))
  | inr early ↦ rw early (quiet now c _ _ refl (inl refl))
]
in_connection-Steps now c dialed = quiet now c _ _ refl (inl refl)
in_connection-Steps now c dial_failed = quiet now c _ _ refl (inl refl)
in_connection-Steps now c woke = quiet now c _ _ refl (inl refl)

in_dial-Steps : (now : ℕ) (c : Client) (e : Event) → Steps now c (in_dial now c e) e
unfolding in_dial
in_dial-Steps now c dialed = record {
  bounded = λ b. (omega arith, omega arith);
  doubles = inr (inr (refl, refl));
  waits = inl refl;
}
in_dial-Steps now c dial_failed = give_up_or_sleep-Steps now c c _ refl (inl refl)
in_dial-Steps now c woke = quiet now c _ _ refl (inl refl)
in_dial-Steps now c queue_ended = quiet now c _ _ refl (inl refl)
in_dial-Steps now c other_message = quiet now c _ _ refl (inl refl)
in_dial-Steps now c lost = quiet now c _ _ refl (inl refl)
in_dial-Steps now c timed_out = quiet now c _ _ refl (inl refl)
in_dial-Steps now c (queued d w) = quiet now c _ _ refl (inl refl)
in_dial-Steps now c (binary b) = quiet now c _ _ refl (inl refl)

in_sleep-Steps : (now : ℕ) (c : Client) (e : Event) → Steps now c (in_sleep c e) e
unfolding in_sleep
in_sleep-Steps now c woke = record {
  bounded = λ b. (omega (arith, b.0), omega arith);
  doubles = inr (inl (refl, refl));
  waits = inl refl;
}
in_sleep-Steps now c dialed = quiet now c _ _ refl (inl refl)
in_sleep-Steps now c dial_failed = quiet now c _ _ refl (inl refl)
in_sleep-Steps now c queue_ended = quiet now c _ _ refl (inl refl)
in_sleep-Steps now c other_message = quiet now c _ _ refl (inl refl)
in_sleep-Steps now c lost = quiet now c _ _ refl (inl refl)
in_sleep-Steps now c timed_out = quiet now c _ _ refl (inl refl)
in_sleep-Steps now c (queued d w) = quiet now c _ _ refl (inl refl)
in_sleep-Steps now c (binary b) = quiet now c _ _ refl (inl refl)

-- In every phase and at every event the back-off stays between 250 ms and 8 s; it changes only by
-- doubling, up to that bound, behind a sleep, and by its reset behind a dial that succeeds; and the
-- deadline stays or moves to 300 s from now.
pub step-Steps :
    (phase : Phase) (now : ℕ) (c : Client) (e : Event) → Steps now c (step phase now c e) e
unfolding step
step-Steps dialing now c e = in_dial-Steps now c e
step-Steps connected now c e = in_connection-Steps now c e
step-Steps sleeping now c e = in_sleep-Steps now c e
step-Steps returned now c e = quiet now c c e refl (inl refl)

failed_round-returned :
    (p : Phase) (took now : ℕ) (c : Client)
    → p ≡ returned
    → c.phase ≡ returned
    → (failed_round p took now c).0 ≡ c
unfolding failed_round step
failed_round-returned p took now c e e' =
    ap (λ p. (failed_round p took now c).0) e ∙ ap (λ p. step p (now + took + c.backoff) c woke) e'

failing-returned :
    (ts : List ℕ) (now : ℕ) (c : Client) → c.phase ≡ returned → (failing ts now c).phase ≡ returned
unfolding failing
failing-returned [] now c e = e
failing-returned (took ∷ ts) now c e =
    let stays : (failed_round c.phase took now c).0 ≡ c =
      failed_round-returned c.phase took now c e e in
    failing-returned ts (failed_round c.phase took now c).1 (failed_round c.phase took now c).0
      (subst (λ d. d.phase ≡ returned) (sym stays) e)

-- A failed round gives up behind the deadline, and dials again before it.
failed_round-cases :
    (took now : ℕ) (c : Client)
    → ((failed_round dialing took now c).0.phase ≡ returned)
      ⊎ ((now + took < c.deadline)
          × (failed_round dialing took now c ≡ (
            record c { phase = dialing; backoff = min (c.backoff * 2) backoff_max },
            now + took + c.backoff,
          )))
unfolding failed_round step in_dial give_up_or_sleep in_sleep
failed_round-cases took now c = elim (Bool-cases (leb c.deadline (now + took))) [
  | inl late ↦ inl (rw late refl)
  | inr early ↦ inr (ground arith, rw early refl)
]

failing-Returns :
    (ts : List ℕ) (now : ℕ) (c : Client)
    → Bounded c
    → c.phase ≡ dialing
    → c.deadline + backoff_min ≤ now + backoff_min * length ts
    → 1 ≤ length ts
    → (failing ts now c).phase ≡ returned
unfolding failing
failing-Returns [] now c b e h one = absurd (omega arith)
failing-Returns (took ∷ ts) now c b e h one =
    subst
      (λ (p : Phase).
        (failing ts (failed_round p took now c).1 (failed_round p took now c).0).phase ≡ returned)
      (sym e)
      (elim (failed_round-cases took now c) [
        | inl over ↦ failing-returned ts _ _ over
        | inr (early, is) ↦
            subst (λ (r : Client × ℕ). (failing ts r.1 r.0).phase ≡ returned) (sym is)
              (failing-Returns ts (now + took + c.backoff)
                (record c { phase = dialing; backoff = min (c.backoff * 2) backoff_max })
                (omega (arith, b.0), omega arith) refl (omega (arith, b.0, h, early))
                (omega (arith, h, early)))
      ])

-- A mapping whose dials all fail ends, whatever time each takes: 1201 of them are enough.
pub start-Returns :
    (now : ℕ) (ts : List ℕ) → 1201 ≤ length ts → (failing ts now (start now)).phase ≡ returned
unfolding start
start-Returns now ts h =
    failing-Returns ts now (start now) (omega arith, omega arith) refl (omega (arith, h))
      (omega (arith, h))
