-- ===== src/WgClient/Connect/Waits.antt =====
-- The wait for the handshake ends, one way or the other.
use wg_wrapper.Base.{
  ℕ, zero, suc, ◌+◌, ◌*◌, ◌≤◌, ◌<◌, ◌⊎◌, ◌≡◌, refl, sym, ap, ◌∙◌, subst, Bool, true, false, List,
  [], ◌∷◌, Bytes, Option, none, some, Memᴰ, leb, leb→le, some-eq, Bool-cases, inl, inr, arith,
  length, ◌++◌, Result, ok, err,
}
use wg_wrapper.Noise.{Noise}
use wg_wrapper.Wg.Timers.{encapsulate, time_since_last_handshake}
use wg_wrapper.Wg.{Wg}
use wg_wrapper.WgClient.Tunnel.{Tunnel, fetch_add}
use wg_wrapper.WgClient.Connect.{
  ConnectError, not_sent, no_handshake, Waited, up, timed_out, seen, wait, Connection, Attempt,
  spawned, judge, send_init, and_wait, handshake,
}

module _ (noise : Noise) (later : ℕ → Wg noise) (now : ℕ → ℕ) where
  -- whether round k finds a handshake
  abbrev pub seen_at : ℕ → Bool
  seen_at k = seen noise (time_since_last_handshake noise (later k) 0)

  -- The rounds in front of k found no handshake.
  abbrev pub Unseen : ℕ → Type 0
  Unseen k = (j : ℕ) → j < k → seen_at j ≡ false

  abbrev Early : ℕ → ℕ → Type 0
  Early deadline k = (j : ℕ) → j < k → now j < deadline

  -- The first round that finds a handshake, or the first at the deadline, without any before.
  abbrev pub Judged : ℕ → Waited noise → Type 0
  Judged deadline (up k) = (k ≤ 400) × (seen_at k ≡ true) × Unseen k
  Judged deadline (timed_out k) = (k ≤ 400) × (deadline ≤ now k) × Unseen (suc k)

  one_more : {P : ℕ → Type 0} (k : ℕ) → ((j : ℕ) → j < k → P j) → P k → (j : ℕ) → j < suc k → P j
  one_more {P} k h p j lt = elim (le_cases j k lt) [
    | inl less ↦ h j less
    | inr same ↦ subst P (sym same) p
  ]
    where
      le_cases : (j k : ℕ) → j < suc k → (j < k) ⊎ (j ≡ k)
      le_cases j k h = ground arith

  module _ (start : ℕ) (begins : start ≤ now 0) (sleeps : (k : ℕ) → now k + 25 ≤ now (suc k)) where
    elapsed : (k : ℕ) → start + k * 25 ≤ now k
    elapsed zero = omega (arith, begins)
    elapsed (suc k) = omega (arith, elapsed k, sleeps k)

    wait-Judged :
        (fuel k : ℕ)
        → k + fuel ≡ 401
        → Unseen k
        → Early (start + 10000) k
        → (w : Waited noise) × (wait noise fuel (start + 10000) later now k ≡ some w)
          × Judged (start + 10000) w
    unfolding wait
    wait-Judged zero k total unseen early =
        absurd (omega (arith, total, early 400 (omega (arith, total)), elapsed 400))
    wait-Judged (suc fuel) k total unseen early = elim (Bool-cases (seen_at k)) [
      | inl h ↦ (up k, rw h refl, (omega (arith, total), h, unseen))
      | inr h ↦ elim (Bool-cases (leb (start + 10000) (now k))) [
        | inl late ↦ (
          timed_out k,
          rw (h, late) refl,
          (omega (arith, total), leb→le (start + 10000) (now k) late, one_more k unseen h),
        )
        | inr soon ↦
            let (w, e, v) =
              wait-Judged fuel (suc k) (omega (arith, total)) (one_more k unseen h)
                (one_more k early (ground arith)) in
            (w, rw (h, soon) e, v)
      ]
    ]

    -- If each sleep takes its 25 ms, the loop ends within 401 rounds: at the first that finds a
    -- handshake, or at one at the deadline, ten seconds from the start, when none found any.
    wait-Ends :
        (w : Waited noise) × (wait noise 401 (start + 10000) later now 0 ≡ some w)
        × Judged (start + 10000) w
    wait-Ends =
        wait-Judged 401 0 refl (λ j h. absurd (omega (arith, h))) (λ j h. absurd (omega (arith, h)))

    module _ (sends : Bytes → Bool) where
      -- what the first refused datagram leaves
      send_init-Refused :
          (t : Tunnel noise) (ds : List Bytes) (d : Bytes)
          → (send_init noise sends t ds).1 ≡ some d
          → Memᴰ d ds × (sends d ≡ false)
      unfolding send_init
      send_init-Refused t [] d h = cc
      send_init-Refused t (x ∷ ds) d h = elim (Bool-cases (sends x)) [
        | inl s ↦
            let sent = record t { tx = fetch_add t.tx (length x); net = t.net ++ x ∷ [] } in
            let (m, e) = send_init-Refused sent ds d (rw s at h) in (Memᴰ.tail m, e)
        | inr s ↦ let same = some-eq (rw s at h) in (Memᴰ.head (sym same), ap sends (sym same) ∙ s)
      ]

      -- Up after a handshake was seen; or stopped and aborted, at the deadline and without a
      -- handshake; or left running, as a datagram of the handshake was not sent.
      abbrev pub Concluded : List Bytes → Connection noise → Result ConnectError (Unit {0}) → Type 0
      Concluded init c (ok tt) =
          ((k : ℕ) × (k ≤ 400) × (seen_at k ≡ true)) × (c.shutdown ≡ false) × (c.aborted ≡ false)
      Concluded init c (err no_handshake) =
          ((k : ℕ) × (k ≤ 400) × (start + 10000 ≤ now k) × Unseen (suc k))
          × (c.shutdown ≡ true)
          × (c.aborted ≡ true)
      Concluded init c (err (not_sent d)) =
          Memᴰ d init × (sends d ≡ false) × (c.shutdown ≡ false) × (c.aborted ≡ false)
      Concluded init c (err _) = ⊥

      judge-Concluded :
          (init : List Bytes) (t : Tunnel noise) (w : Waited noise)
          → Judged (start + 10000) w
          → Concluded init (judge noise t w).connection (judge noise t w).result
      unfolding judge
      judge-Concluded init t (up k) v = ((k, v.0, v.1), refl, refl)
      judge-Concluded init t (timed_out k) v = ((k, v.0, v.1, v.2), refl, refl)

      attempt-Concluded :
          (init : List Bytes) (sent : Tunnel noise × Option Bytes) (w : Waited noise)
          → ((d : Bytes) → sent.1 ≡ some d → Memᴰ d init × (sends d ≡ false))
          → Judged (start + 10000) w
          → (a : Attempt noise) × (and_wait noise sends (some w) sent ≡ some a)
            × Concluded init a.connection a.result
      attempt-Concluded init (t, some d) w h v =
          let (m, e) = h d refl in (_, refl, (m, e, refl, refl))
      attempt-Concluded init (t, none) w h v = (judge noise t w, refl, judge-Concluded init t w v)

      -- An attempt to connect always ends: it is up within 401 rounds if a handshake is seen; with
      -- no handshake up to the deadline the read thread is told to stop and the tasks are aborted;
      -- and only a datagram of the handshake that the socket refused leaves the tasks running.
      pub handshake-Ends :
          (wg : Wg noise)
          → (a : Attempt noise) × (handshake noise sends 401 wg start later now ≡ some a)
            × Concluded (encapsulate noise wg 0 [] []).1 a.connection a.result
      unfolding handshake
      handshake-Ends wg =
          let (w, e, v) = wait-Ends in
          let (sent, init) = encapsulate noise wg 0 [] [] in
          let (a, f, c) =
            attempt-Concluded init (send_init noise sends (spawned noise sent) init) w
              (λ d h. send_init-Refused (spawned noise sent) init d h) v in
          (
            a,
            ap (λ o. and_wait noise sends o (send_init noise sends (spawned noise sent) init)) e
                ∙ f,
            c,
          )
