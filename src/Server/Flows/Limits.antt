-- ===== src/Server/Flows/Limits.antt =====
-- Under every interleaving the caps hold, no count is lost and no permit leaks.
use wg_wrapper.Base.{
  ◌⊎◌, ℕ, zero, suc, ◌+◌, ◌≡◌, ◌<◌, ◌≤◌, refl, sym, ap, subst, Bool, true, false, List, [], ◌∷◌,
  some, arith, length, get_elem?, set, ◌==◌, inl, inr, All, some-eq,
}
use wg_wrapper.Server.Flows.{Stage, waiting, permitted, over, undone, Table, up, down, remove}
use wg_wrapper.Server.{max_flows, max_flows_per_peer}

abbrev pub one_if : Bool → ℕ
one_if true = 1
one_if false = 0

-- how many flows of a peer are live
abbrev pub flows_of : ℕ → List ℕ → ℕ
flows_of i [] = 0
flows_of i (x ∷ xs) = one_if (x == i) + flows_of i xs

-- what the accept loop has counted and not taken back, and the permit that it holds
abbrev pub pending : ℕ → Stage → ℕ
pending i (over j) = one_if (j == i)
pending i waiting = 0
pending i (permitted j) = 0
pending i undone = 0

abbrev pub held : Stage → ℕ
held waiting = 0
held (permitted j) = 1
held (over j) = 1
held undone = 1

abbrev pub InRange : ℕ → Stage → Type 0
InRange n waiting = Unit
InRange n (permitted i) = i < n
InRange n (over i) = i < n
InRange n undone = Unit

-- Each slot holds the number of the peer's live flows, at most 512, and of its flow that is being
-- undone; each of the 4096 permits is free or held once.
pub record Exact (peers : ℕ) (t : Table) : Type 0 where
  pub slots : length t.counts ≡ peers
  pub exact : (i c : ℕ) → get_elem? t.counts i ≡ some c → c ≡ flows_of i t.live + pending i t.stage
  pub capped : (i : ℕ) → flows_of i t.live ≤ max_flows_per_peer
  pub conserved : t.permits + length t.live + t.closing + held t.stage ≡ max_flows
  pub owners : All (λ i. i < peers) t.live
  pub in_range : InRange peers t.stage

pub get_elem?-some : (xs : List ℕ) (i : ℕ) → i < length xs → (a : ℕ) × (get_elem? xs i ≡ some a)
get_elem?-some [] i h = absurd (omega arith)
get_elem?-some (x ∷ xs) zero h = (x, refl)
get_elem?-some (x ∷ xs) (suc i) h = get_elem?-some xs i (omega arith)

-- A slot after a write.
pub set-cases :
    (xs : List ℕ) (i j v : ℕ) {b : ℕ}
    → get_elem? (set xs i v) j ≡ some b
    → ((j ≡ i) × (b ≡ v)) ⊎ (((j == i) ≡ false) × (get_elem? xs j ≡ some b))
set-cases [] i j v e = cc
set-cases (x ∷ xs) zero zero v e = inl (refl, sym (some-eq e))
set-cases (x ∷ xs) zero (suc j) v e = inr (ground arith, e)
set-cases (x ∷ xs) (suc i) zero v e = inr (ground arith, e)
set-cases (x ∷ xs) (suc i) (suc j) v e = elim (set-cases xs i j v e) [
  | inl (same, is) ↦ inl (ap suc same, is)
  | inr (other, old) ↦ inr (ground (arith, other), old)
]

pub itself : (i : ℕ) → one_if (i == i) ≡ 1
itself i = ground arith

pub another : (i j : ℕ) → (j == i) ≡ false → one_if (i == j) ≡ 0
another i j h = ground arith

pub pending_le : (i : ℕ) (s : Stage) → pending i s ≤ 1
pending_le i waiting = omega arith
pending_le i (permitted j) = omega arith
pending_le i (over j) = ground arith
pending_le i undone = omega arith

-- A count of a handful of flows does not wrap around.
pub up-eq : (c : ℕ) → c ≤ max_flows_per_peer → up c ≡ c + 1
up-eq c h = omega arith

pub down-eq : (c d : ℕ) → c ≡ d + 1 → d ≤ max_flows_per_peer + 1 → down c ≡ d
down-eq c d e h = omega arith

pub flows_of-remove :
    (l : List ℕ) (pos i j : ℕ)
    → get_elem? l pos ≡ some i
    → flows_of j l ≡ one_if (i == j) + flows_of j (remove l pos)
flows_of-remove [] pos i j e = cc
flows_of-remove (x ∷ l) zero i j e = let same : x ≡ i = some-eq e in rw same refl
flows_of-remove (x ∷ l) (suc pos) i j e = omega (arith, flows_of-remove l pos i j e)

pub length-remove :
    (l : List ℕ) (pos i : ℕ) → get_elem? l pos ≡ some i → length l ≡ length (remove l pos) + 1
length-remove [] pos i e = cc
length-remove (x ∷ l) zero i e = omega arith
length-remove (x ∷ l) (suc pos) i e = omega (arith, length-remove l pos i e)

pub All-remove :
    (n : ℕ) (l : List ℕ) (pos : ℕ) → All (λ i. i < n) l → All (λ i. i < n) (remove l pos)
All-remove n [] pos h = h
All-remove n (x ∷ l) zero h = h.1
All-remove n (x ∷ l) (suc pos) h = (h.0, All-remove n l pos h.1)

pub All-at :
    (n : ℕ) (l : List ℕ) (pos i : ℕ) → All (λ i. i < n) l → get_elem? l pos ≡ some i → i < n
All-at n [] pos i h e = cc
All-at n (x ∷ l) zero i h e = subst (λ i. i < n) (some-eq e) h.0
All-at n (x ∷ l) (suc pos) i h e = All-at n l pos i h.1 e
