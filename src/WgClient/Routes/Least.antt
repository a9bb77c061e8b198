-- ===== src/WgClient/Routes/Least.antt =====
-- The loop over the rows finds the first default route of the lowest metric.
use wg_wrapper.Base.{
  All-map, ℕ, ◌≤◌, ◌<◌, ◌≡◌, refl, sym, ap, ◌∙◌, subst, ◌&&◌, List, [], ◌∷◌, ◌++◌, Option, none,
  some, All, All-append, arith, if◌then◌else◌, Bool-cases, inl, inr, ltb, ltb→lt,
}
use mathlib.Core.List.{append_assoc, append-nil}
use wg_wrapper.Addr.Parse.{parse_ipv4}
use wg_wrapper.Addr.V4
use wg_wrapper.WgClient.Routes.{Row, Best, challenge, better, best_of}

-- the next hop of a default route
pub gateway_of : Row → Option ℕ
gateway_of r =
    if V4.is_unspecified r.dest && V4.is_unspecified r.mask then parse_ipv4 r.gateway else none

-- not a default route, or one with another metric that is refused or kept
abbrev pub Unless {κ} : (ℕ → Type κ) → Row → Type κ
Unless P r = (gw : ℕ) → gateway_of r ≡ some gw → P r.metric

-- The first of the rows that has the least metric.
pub record Least (rows : List Row) (b : Best) : Type 0 where
  pub front : List Row
  pub row : Row
  pub back : List Row
  pub whole : rows ≡ front ++ row ∷ back
  pub gateway : gateway_of row ≡ some b.gateway
  pub metric : row.metric ≡ b.metric
  pub iface : row.iface ≡ b.iface
  pub before : All (Unless (λ m. b.metric < m)) front
  pub behind : All (Unless (λ m. b.metric ≤ m)) back

abbrev pub IsBest : List Row → Option Best → Type 0
IsBest rows none = All (λ r. gateway_of r ≡ none) rows
IsBest rows (some b) = Least rows b

better-challenge : (best : Option Best) (r : Row) → better best r ≡ challenge best r (gateway_of r)
unfolding better gateway_of
better-challenge best r = elim (Bool-cases (V4.is_unspecified r.dest)) [
  | inr f ↦ rw f refl
  | inl t ↦ elim (Bool-cases (V4.is_unspecified r.mask)) [
    | inr f ↦ rw (t, f) refl
    | inl t' ↦ rw (t, t') refl
  ]
]

none-some : {A : Type 0} {a : A} → ◌≡◌ {A = Option A} none (some a) → ⊥
none-some e = cc

module _ (rows : List Row) (r : Row) where
  unchanged : (b : Best) → Least rows b → Unless (λ m. b.metric ≤ m) r → Least (rows ++ r ∷ []) b
  unchanged b l u = record {
    front = l.front;
    row = l.row;
    back = l.back ++ r ∷ [];
    whole = ap (λ xs. xs ++ r ∷ []) l.whole ∙ append_assoc l.front (l.row ∷ l.back) (r ∷ []);
    gateway = l.gateway;
    metric = l.metric;
    iface = l.iface;
    before = l.before;
    behind = All-append _ l.back (r ∷ []) l.behind (u, tt);
  }

  newest :
      (gw : ℕ)
      → gateway_of r ≡ some gw
      → All (Unless (λ m. r.metric < m)) rows
      → Least (rows ++ r ∷ []) (record { metric = r.metric; gateway = gw; iface = r.iface })
  newest gw e before = record {
    front = rows;
    row = r;
    back = [];
    whole = refl;
    gateway = e;
    metric = refl;
    iface = refl;
    before = before;
    behind = tt;
  }

  -- all rows so far have at least the metric of the best one
  all_above : (b : Best) (m : ℕ) → Least rows b → m < b.metric → All (Unless (λ k. m < k)) rows
  all_above b m l h = subst (All (Unless (λ k. m < k))) (sym l.whole) (
      All-append _ l.front (l.row ∷ l.back)
        (All-map (λ x u gw e. omega (arith, u gw e, h)) l.front l.before)
        (
          (λ gw e. omega (arith, l.metric, h)),
          All-map (λ x u gw e. omega (arith, u gw e, h)) l.back l.behind,
        ))

  challenge-IsBest :
      (best : Option Best) (o : Option ℕ)
      → IsBest rows best
      → gateway_of r ≡ o
      → IsBest (rows ++ r ∷ []) (challenge best r o)
  challenge-IsBest none none h e = All-append _ rows (r ∷ []) h (e, tt)
  challenge-IsBest none (some gw) h e =
      newest gw e (All-map (λ x n k f. absurd (none-some (sym n ∙ f))) rows h)
  challenge-IsBest (some b) none h e = unchanged b h (λ k f. absurd (none-some (sym e ∙ f)))
  challenge-IsBest (some b) (some gw) h e = elim (Bool-cases (ltb r.metric b.metric)) [
    | inl t ↦ rw t (newest gw e (all_above b r.metric h (ltb→lt r.metric b.metric t)))
    | inr f ↦ rw f (unchanged b h (λ k g. ground arith))
  ]

best_of-IsBest :
    (rows rest : List Row) (best : Option Best)
    → IsBest rows best
    → IsBest (rows ++ rest) (best_of best rest)
unfolding best_of
best_of-IsBest rows [] best h = subst (λ xs. IsBest xs best) (sym (append-nil rows)) h
best_of-IsBest rows (r ∷ rest) best h =
    subst (λ xs. IsBest xs (best_of (better best r) rest)) (append_assoc rows (r ∷ []) rest)
      (best_of-IsBest (rows ++ r ∷ []) rest (better best r) (
        subst (IsBest (rows ++ r ∷ [])) (sym (better-challenge best r))
          (challenge-IsBest rows r best (gateway_of r) h refl)))

pub best_of-Least : (rows : List Row) → IsBest rows (best_of none rows)
best_of-Least rows = best_of-IsBest [] rows none tt
