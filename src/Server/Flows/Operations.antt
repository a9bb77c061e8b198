-- ===== src/Server/Flows/Operations.antt =====
-- Every operation keeps the limits exact.
use wg_wrapper.Base.{
  ℕ, zero, suc, ◌+◌, ◌≡◌, ◌<◌, ◌≤◌, refl, sym, ap, ◌∙◌, subst, false, List, ◌∷◌, some, arith,
  get_elem?, set, ◌==◌, leb, length-set, inl, inr, Bool-cases, ==_iff,
}
use wg_wrapper.Server.Flows.{
  Stage, waiting, permitted, over, undone, Table, up, down, try_acquire, count, remove,
}
use wg_wrapper.Server.{max_flows_per_peer}
use wg_wrapper.Server.Flows.Limits.{
  flows_of, pending, held, InRange, Exact, set-cases, itself, another, pending_le, up-eq, down-eq,
  flows_of-remove, length-remove, All-remove,
}

module _ (peers : ℕ) (t : Table) (v : Exact peers t) where
  -- A write of one slot that follows the flows.
  written :
      (i w : ℕ) (live : List ℕ) (stage : Stage)
      → w ≡ flows_of i live + pending i stage
      → ((j : ℕ)
          → (j == i) ≡ false
          → flows_of j live + pending j stage ≡ flows_of j t.live + pending j t.stage)
      → (j c : ℕ) → get_elem? (set t.counts i w) j ≡ some c
      → c ≡ flows_of j live + pending j stage
  written i w live stage here others j c e = elim (set-cases t.counts i j w e) [
    | inl (same, is) ↦ rw same (is ∙ here)
    | inr (other, old) ↦ v.exact j c old ∙ sym (others j other)
  ]

  pub try_acquire-Exact :
      (idx n : ℕ)
      → idx < peers
      → t.stage ≡ waiting
      → t.permits ≡ n
      → Exact peers (try_acquire idx n t)
  unfolding try_acquire
  try_acquire-Exact idx zero h e p = v
  try_acquire-Exact idx (suc n) h e p = record {
    slots = v.slots;
    exact = λ i c at. v.exact i c at ∙ ap (λ s. flows_of i t.live + pending i s) e;
    capped = v.capped;
    conserved = omega (arith, v.conserved, p, ap held e);
    owners = v.owners;
    in_range = h;
  }

  -- The count of the stage's own peer: nothing is pending yet.
  permitted_count :
      (i c : ℕ) → t.stage ≡ permitted i → get_elem? t.counts i ≡ some c → c ≡ flows_of i t.live
  permitted_count i c e at = omega (arith, v.exact i c at, ap (pending i) e)

  permitted_range : (i : ℕ) → t.stage ≡ permitted i → i < peers
  permitted_range i e = subst (InRange peers) e v.in_range

  -- At the cap the flow is counted, to be undone.
  pub refused-Exact :
      (i c : ℕ)
      → t.stage ≡ permitted i
      → get_elem? t.counts i ≡ some c
      → Exact peers (record t { counts = set t.counts i (up c); stage = over i })
  refused-Exact i c e at =
      let n = permitted_count i c e at in
      let fits : c ≤ max_flows_per_peer = omega (arith, n, v.capped i) in
      record {
        slots = length-set t.counts i (up c) ∙ v.slots;
        exact =
            written i (up c) t.live (over i) (omega (arith, n, up-eq c fits, itself i))
              (λ j other. omega (arith, another i j other, ap (pending j) e));
        capped = v.capped;
        conserved = omega (arith, v.conserved, ap held e);
        owners = v.owners;
        in_range = permitted_range i e;
      }

  -- Below the cap the flow goes live.
  pub started-Exact :
      (i c : ℕ)
      → t.stage ≡ permitted i
      → get_elem? t.counts i ≡ some c
      → c < max_flows_per_peer
      → Exact peers
          (record t { counts = set t.counts i (up c); stage = waiting; live = i ∷ t.live })
  started-Exact i c e at free =
      let n = permitted_count i c e at in
      let fits : c ≤ max_flows_per_peer = omega (arith, n, v.capped i) in
      record {
        slots = length-set t.counts i (up c) ∙ v.slots;
        exact =
            written i (up c) (i ∷ t.live) waiting (omega (arith, n, up-eq c fits, itself i))
              (λ j other. omega (arith, another i j other, ap (pending j) e));
        capped = λ j. elim (Bool-cases (i == j)) [
          | inl same ↦
              let eq : i ≡ j = (==_iff i j).0 same in
              rw same (omega (arith, n, ap (λ k. flows_of k t.live) eq, free))
          | inr other ↦ rw other (omega (arith, v.capped j))
        ];
        conserved = omega (arith, v.conserved, ap held e);
        owners = (permitted_range i e, v.owners);
        in_range = tt;
      }

  pub count-Exact :
      (i c : ℕ)
      → t.stage ≡ permitted i
      → get_elem? t.counts i ≡ some c
      → (t' : Table) × (count i (some c) t ≡ some t') × Exact peers t'
  unfolding count
  count-Exact i c e at = elim (Bool-cases (leb max_flows_per_peer c)) [
    | inl full ↦ (_, rw full refl, refused-Exact i c e at)
    | inr free ↦ (_, rw free refl, started-Exact i c e at (ground arith))
  ]

  -- A flow that was over the cap is taken back.
  pub uncounted-Exact :
      (i c : ℕ)
      → t.stage ≡ over i
      → get_elem? t.counts i ≡ some c
      → Exact peers (record t { counts = set t.counts i (down c); stage = undone })
  uncounted-Exact i c e at =
      let n : c ≡ flows_of i t.live + 1 =
        omega (arith, v.exact i c at, ap (pending i) e, itself i) in
      record {
        slots = length-set t.counts i (down c) ∙ v.slots;
        exact =
            written i (down c) t.live undone
              (omega (arith, down-eq c (flows_of i t.live) n (omega (arith, v.capped i))))
              (λ j other. omega (arith, another i j other, ap (pending j) e));
        capped = v.capped;
        conserved = omega (arith, v.conserved, ap held e);
        owners = v.owners;
        in_range = tt;
      }

  pub released-Exact :
      t.stage ≡ undone → Exact peers (record t { permits = t.permits + 1; stage = waiting })
  released-Exact e = record {
    slots = v.slots;
    exact = λ i c at. v.exact i c at ∙ ap (λ s. flows_of i t.live + pending i s) e;
    capped = v.capped;
    conserved = omega (arith, v.conserved, ap held e);
    owners = v.owners;
    in_range = tt;
  }

  pub ended-Exact :
      (pos i c : ℕ)
      → get_elem? t.live pos ≡ some i
      → get_elem? t.counts i ≡ some c
      → Exact peers (record t {
        counts = set t.counts i (down c);
        live = remove t.live pos;
        closing = t.closing + 1;
      })
  ended-Exact pos i c at slot =
      let rest : List ℕ = remove t.live pos in
      let fewer = flows_of-remove t.live pos i in
      let n : c ≡ flows_of i rest + pending i t.stage + 1 =
        omega (arith, v.exact i c slot, fewer i at, itself i) in
      record {
        slots = length-set t.counts i (down c) ∙ v.slots;
        exact =
            written i (down c) rest t.stage
              (down-eq c _ n (omega (arith, fewer i at, v.capped i, pending_le i t.stage)))
              (λ j other. omega (arith, another i j other, fewer j at));
        capped = λ j. omega (arith, fewer j at, v.capped j);
        conserved = omega (arith, v.conserved, length-remove t.live pos i at);
        owners = All-remove peers t.live pos v.owners;
        in_range = v.in_range;
      }
