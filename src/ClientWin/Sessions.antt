-- ===== src/ClientWin/Sessions.antt =====
-- While no two dials overlap, the tunnel that is up is the one of the session.
use wg_wrapper.Base.{
  ℕ, zero, suc, ◌≡◌, refl, sym, ap, ◌∙◌, List, [], ◌∷◌, Option, none, some, arith, ◌⊎◌, inl, inr,
}
use wg_wrapper.ClientWin.{
  connected, Client, begin, Outcome, dialed, refused, conclude, close, disconnect, Event, begins,
  disconnects, concludes, step, run,
}

abbrev pub listed : Option ℕ → List ℕ
listed none = []
listed (some t) = t ∷ []

-- The session knows the tunnel that is up and its adapter, and says so; a dial runs only without
-- one.
pub record Tracked (c : Client) : Type 0 where
  pub known : c.up ≡ listed c.session.tunnel
  pub kept : c.adapters ≡ listed c.session.adapter
  pub together : c.session.adapter ≡ c.session.tunnel
  pub shown : (t : ℕ) → c.session.tunnel ≡ some t → c.session.state ≡ connected
  pub alone : (c.dialing ≡ 0) ⊎ ((c.dialing ≡ 1) × (c.session.tunnel ≡ none))

-- A `connect` begins only when no other one dials.
abbrev pub Alone : Client → Event → Type 0
Alone c begins = c.dialing ≡ 0
Alone c disconnects = Unit
Alone c (concludes o) = Unit

abbrev pub AloneAll : Client → List Event → Type 0
AloneAll c [] = Unit
AloneAll c (e ∷ es) = Alone c e × AloneAll (step c e) es

close-listed : (o : Option ℕ) → close o (listed o) ≡ []
unfolding close
close-listed none = refl
close-listed (some t) = ground arith

begin-Tracked :
    (c : Client) (o : Option ℕ)
    → Tracked c
    → c.dialing ≡ 0
    → c.session.tunnel ≡ o
    → Tracked (begin o c)
unfolding begin
begin-Tracked c (some t) v idle e = v
begin-Tracked c none v idle e = record {
  known = v.known;
  kept = v.kept;
  together = v.together;
  shown = λ t h. absurd (differ (sym e ∙ h));
  alone = inr (ap suc idle, e);
}
  where
    differ : {t : ℕ} → ◌≡◌ {A = Option ℕ} none (some t) → ⊥
    differ h = cc

conclude-Tracked :
    (c : Client) (n : ℕ) (o : Outcome) → Tracked c → c.dialing ≡ n → Tracked (conclude n o c)
unfolding conclude
conclude-Tracked c zero o v e = v
conclude-Tracked c (suc n) o v e = elim v.alone [
  | inl idle ↦ absurd (omega (arith, idle, e))
  | inr (one, free) ↦ concluded c n o v (omega (arith, one, e)) free
]
  where
    concluded :
        (c : Client) (n : ℕ) (o : Outcome)
        → Tracked c
        → n ≡ 0
        → c.session.tunnel ≡ none
        → Tracked (conclude (suc n) o c)
    concluded c n (dialed label) v last free = record {
      known = ap (◌∷◌ c.next) (v.known ∙ ap listed free);
      kept =
          ap (λ xs. c.next ∷ close c.session.adapter xs) v.kept
          ∙ ap (◌∷◌ c.next) (close-listed c.session.adapter);
      together = refl;
      shown = λ t h. refl;
      alone = inl last;
    }
    concluded c n (refused e) v last free = record {
      known = v.known;
      kept = v.kept;
      together = v.together;
      shown = λ t h. absurd (differ (sym free ∙ h));
      alone = inl last;
    }
      where
        differ : {t : ℕ} → ◌≡◌ {A = Option ℕ} none (some t) → ⊥
        differ h = cc

disconnect-Tracked : (c : Client) → Tracked c → Tracked (disconnect c)
unfolding disconnect
disconnect-Tracked c v = record {
  known = ap (close c.session.tunnel) v.known ∙ close-listed c.session.tunnel;
  kept = ap (close c.session.adapter) v.kept ∙ close-listed c.session.adapter;
  together = refl;
  shown = λ t h. absurd (differ h);
  alone = elim v.alone [ inl idle ↦ inl idle | inr (one, free) ↦ inr (one, refl) ];
}
  where
    differ : {t : ℕ} → ◌≡◌ {A = Option ℕ} none (some t) → ⊥
    differ h = cc

-- In every run in which no `connect` begins while another one dials, with disconnects at any time,
-- the tunnels that are up are exactly the session's, the adapters that are not dropped are exactly
-- the session's, which has both or neither, and the session shows a tunnel as connected.
pub run-Tracked : (es : List Event) (c : Client) → AloneAll c es → Tracked c → Tracked (run c es)
unfolding run step
run-Tracked [] c h v = v
run-Tracked (begins ∷ es) c h v =
    run-Tracked es (begin c.session.tunnel c) h.1 (begin-Tracked c c.session.tunnel v h.0 refl)
run-Tracked (disconnects ∷ es) c h v = run-Tracked es (disconnect c) h.1 (disconnect-Tracked c v)
run-Tracked (concludes o ∷ es) c h v =
    run-Tracked es (conclude c.dialing o c) h.1 (conclude-Tracked c c.dialing o v refl)
