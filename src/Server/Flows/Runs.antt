-- ===== src/Server/Flows/Runs.antt =====
-- Runs of the accept loop and of the flows' ends.
use wg_wrapper.Base.{
  ℕ, zero, suc, ◌≡◌, ◌<◌, refl, sym, ap, ◌∙◌, subst, List, [], ◌∷◌, Option, none, some, arith,
  length, get_elem?, All, some-eq,
}
use wg_wrapper.Server.Flows.{
  Stage, waiting, permitted, over, undone, Table, count, uncount, accept, give_back, drop_guard,
  drop_permit, Event, accepts, ends, releases, step, run, zeros, start,
}
use wg_wrapper.Server.{max_flows}
use wg_wrapper.Server.Flows.Limits.{flows_of, pending, held, InRange, Exact, get_elem?-some, All-at}
use wg_wrapper.Server.Flows.Operations.{
  try_acquire-Exact, count-Exact, uncounted-Exact, released-Exact, ended-Exact,
}

-- The accept loop gets peers of the configuration.
abbrev pub Names : ℕ → Event → Type 0
Names peers (accepts idx) = idx < peers
Names peers (ends pos) = Unit
Names peers releases = Unit

abbrev Continues : ℕ → Option Table → Type 0
Continues peers o = (t' : Table) × (o ≡ some t') × Exact peers t'

module _ (peers : ℕ) where
  accept-Continues :
      (t : Table) (idx : ℕ) (s : Stage)
      → idx < peers
      → Exact peers t
      → t.stage ≡ s
      → Continues peers (accept idx s t)
  unfolding accept uncount
  accept-Continues t idx waiting h v e =
      (_, refl, try_acquire-Exact peers t v idx t.permits h e refl)
  accept-Continues t idx (permitted i) h v e =
      let (c, at) =
        get_elem?-some t.counts i
          (subst (λ n. i < n) (sym v.slots) (subst (InRange peers) e v.in_range)) in
      subst (λ o. Continues peers (count i o t)) (sym at) (count-Exact peers t v i c e at)
  accept-Continues t idx (over i) h v e =
      let (c, at) =
        get_elem?-some t.counts i
          (subst (λ n. i < n) (sym v.slots) (subst (InRange peers) e v.in_range)) in
      subst (λ o. Continues peers (uncount i o t)) (sym at)
        (_, refl, uncounted-Exact peers t v i c e at)
  accept-Continues t idx undone h v e = (_, refl, released-Exact peers t v e)

  drop_guard-Continues :
      (t : Table) (pos : ℕ) (o : Option ℕ)
      → Exact peers t
      → get_elem? t.live pos ≡ o
      → Continues peers (drop_guard pos o t)
  unfolding drop_guard give_back
  drop_guard-Continues t pos none v e = (t, refl, v)
  drop_guard-Continues t pos (some i) v e =
      let (c, at) =
        get_elem?-some t.counts i
          (subst (λ n. i < n) (sym v.slots) (All-at peers t.live pos i v.owners e)) in
      subst (λ o. Continues peers (give_back pos i o t)) (sym at)
        (_, refl, ended-Exact peers t v pos i c e at)

  drop_permit-Exact :
      (t : Table) (n : ℕ) → Exact peers t → t.closing ≡ n → Exact peers (drop_permit n t)
  unfolding drop_permit
  drop_permit-Exact t zero v e = v
  drop_permit-Exact t (suc n) v e = record {
    slots = v.slots;
    exact = v.exact;
    capped = v.capped;
    conserved = omega (arith, v.conserved, e);
    owners = v.owners;
    in_range = v.in_range;
  }

  step-Continues :
      (t : Table) (e : Event) → Names peers e → Exact peers t → Continues peers (step e t)
  unfolding step
  step-Continues t (accepts idx) h v = accept-Continues t idx t.stage h v refl
  step-Continues t (ends pos) h v = drop_guard-Continues t pos (get_elem? t.live pos) v refl
  step-Continues t releases h v = (_, refl, drop_permit-Exact t t.closing v refl)

  run-Continues :
      (t : Table) (es : List Event)
      → All (Names peers) es
      → Exact peers t
      → Continues peers (run es t)
  unfolding run
  run-Continues t [] h v = (t, refl, v)
  run-Continues t (e ∷ es) h v =
      let (u, next, w) = step-Continues t e h.0 v in rw (next, run) (run-Continues u es h.1 w)

  zeros-eq : (n i : ℕ) {c : ℕ} → get_elem? (zeros n) i ≡ some c → c ≡ 0
  unfolding zeros
  zeros-eq zero i e = cc
  zeros-eq (suc n) zero e = sym (some-eq e)
  zeros-eq (suc n) (suc i) e = zeros-eq n i e

  length-zeros : (n : ℕ) → length (zeros n) ≡ n
  unfolding zeros
  length-zeros zero = refl
  length-zeros (suc n) = ap suc (length-zeros n)

  start-Exact : Exact peers (start peers)
  unfolding start
  start-Exact = record {
    slots = length-zeros peers;
    exact = λ i c e. zeros-eq peers i e;
    capped = λ i. omega arith;
    conserved = omega arith;
    owners = tt;
    in_range = tt;
  }

  -- Every interleaving of the accept loop with the ends of flows, for sources that belong to peers,
  -- runs without a panic, and then each count is exact, no peer has more than 512 live flows, and
  -- each of the 4096 permits is free or held once.
  pub run-Exact :
      (es : List Event)
      → All (Names peers) es
      → (t : Table) × (run es (start peers) ≡ some t) × Exact peers t
  run-Exact es h = run-Continues (start peers) es h start-Exact

  -- Nothing leaks: when no flow is left and the accept loop waits, every permit is free and every
  -- count is 0.
  pub run-drained :
      (es : List Event) (t : Table)
      → All (Names peers) es
      → run es (start peers) ≡ some t
      → t.live ≡ []
      → t.closing ≡ 0
      → t.stage ≡ waiting
      → (t.permits ≡ max_flows) × ((i c : ℕ) → get_elem? t.counts i ≡ some c → c ≡ 0)
  run-drained es t h e live closing stage =
      let (u, e', w) = run-Exact es h in
      let v = subst (Exact peers) (some-eq (sym e' ∙ e)) w in
      (
        omega (arith, v.conserved, ap length live, closing, ap held stage),
        λ i c at. omega (arith, v.exact i c at, ap (flows_of i) live, ap (pending i) stage),
      )
