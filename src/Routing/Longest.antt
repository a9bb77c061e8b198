-- ===== src/Routing/Longest.antt =====
-- The match is a most specific one, and there is one exactly if some network holds the address.
use wg_wrapper.Base.{
  ℕ, ◌≤◌, ◌≡◌, refl, List, [], ◌∷◌, Option, none, some, arith, filter, Memᴰ, inl, inr, true,
  Bool-cases, leb, if◌then◌else◌, mem_of_mem-filter, mem-filter,
}
use wg_wrapper.Addr.{IpAddr}
use wg_wrapper.IpNet.{NetOps}
use wg_wrapper.Routing.{max_from, max_by_key, peer_for, index_of}

module _ {ℓ} {A : Type ℓ} (key : A → ℕ) where
  -- the result is the starting value or a member
  max_from-mem : (best : A) (xs : List A) → Memᴰ (max_from key best xs) (best ∷ xs)
  unfolding max_from
  max_from-mem best [] = Memᴰ.head refl
  max_from-mem best (x ∷ xs) = elim (Bool-cases (leb (key best) (key x))) [
    | inl h ↦ rw h (Memᴰ.tail (max_from-mem x xs))
    | inr h ↦ rw h (skip (max_from-mem best xs))
  ]
    where
      skip : {m : A} → Memᴰ m (best ∷ xs) → Memᴰ m (best ∷ x ∷ xs)
      skip (Memᴰ.head e) = Memᴰ.head e
      skip (Memᴰ.tail m) = Memᴰ.tail (Memᴰ.tail m)

  max_from-ge_best : (best : A) (xs : List A) → key best ≤ key (max_from key best xs)
  unfolding max_from
  max_from-ge_best best [] = omega arith
  max_from-ge_best best (x ∷ xs) = ground (arith, max_from-ge_best best xs, max_from-ge_best x xs)

  -- and no key is larger
  max_from-ge : (best : A) (xs : List A) {a : A} → Memᴰ a xs → key a ≤ key (max_from key best xs)
  unfolding max_from
  max_from-ge best [] m = elim m [ ]
  max_from-ge best (x ∷ xs) (Memᴰ.head e) =
      rw e (ground (arith, max_from-ge_best best xs, max_from-ge_best x xs))
  max_from-ge best (x ∷ xs) (Memᴰ.tail m) =
      max_from-ge (if leb (key best) (key x) then x else best) xs m

  max_by_key-longest :
      (xs : List A) (m : A)
      → max_by_key key xs ≡ some m
      → Memᴰ m xs × ((a : A) → Memᴰ a xs → key a ≤ key m)
  unfolding max_by_key
  max_by_key-longest [] m e = cc
  max_by_key-longest (x ∷ xs) m e =
      let same : max_from key x xs ≡ m = cc in rw (← same) (max_from-mem x xs, λ a i. bound a i)
    where
      bound : (a : A) → Memᴰ a (x ∷ xs) → key a ≤ key (max_from key x xs)
      bound a (Memᴰ.head h) = rw h (max_from-ge_best x xs)
      bound a (Memᴰ.tail i) = max_from-ge x xs i

  max_by_key-none : (xs : List A) → max_by_key key xs ≡ none → xs ≡ []
  unfolding max_by_key
  max_by_key-none [] e = refl
  max_by_key-none (x ∷ xs) e = cc

  max_by_key-some : (xs : List A) {a : A} → Memᴰ a xs → (m : A) × (max_by_key key xs ≡ some m)
  unfolding max_by_key
  max_by_key-some [] i = elim i [ ]
  max_by_key-some (x ∷ xs) i = (max_from key x xs, refl)

index_of-some {ℓ} :
    {A : Type ℓ} (o : Option (A × ℕ)) (i : ℕ) → index_of o ≡ some i → (n : A) × (o ≡ some (n, i))
index_of-some none i e = cc
index_of-some (some (n, j)) i e = (n, ground arith)

module _ (ops : NetOps) where
  open ops use {Net, contains, prefix_len}

  -- A routed address lies in a network of that peer, and in no network with a longer prefix.
  pub peer_for-longest :
      (allowed : List (Net × ℕ)) (ip : IpAddr) (i : ℕ)
      → peer_for ops allowed ip ≡ some i
      → (n : Net) × Memᴰ (n, i) allowed
        × (contains n ip ≡ true)
        × ((m : Net) (j : ℕ)
            → Memᴰ (m, j) allowed
            → contains m ip ≡ true
            → prefix_len m ≤ prefix_len n)
  unfolding peer_for
  peer_for-longest allowed ip i e =
      let (n, found) =
        index_of-some (max_by_key (λ e. prefix_len e.0) (filter (λ e. contains e.0 ip) allowed)) i
          e in
      let (member, longest) =
        max_by_key-longest (λ e. prefix_len e.0) (filter (λ e. contains e.0 ip) allowed) (n, i)
          found in
      let (stored, holds) = mem_of_mem-filter (λ e. contains e.0 ip) allowed member in
      (
        n,
        stored,
        holds,
        λ m j at covers. longest (m, j) (mem-filter (λ e. contains e.0 ip) at covers),
      )

  -- An address that some network holds is routed.
  pub peer_for-some :
      (allowed : List (Net × ℕ)) (ip : IpAddr) (n : Net) (i : ℕ)
      → Memᴰ (n, i) allowed
      → contains n ip ≡ true
      → (j : ℕ) × (peer_for ops allowed ip ≡ some j)
  unfolding peer_for
  peer_for-some allowed ip n i m h =
      let ((n', j), e) =
        max_by_key-some (λ e. prefix_len e.0) (filter (λ e. contains e.0 ip) allowed)
          (mem-filter (λ e. contains e.0 ip) m h) in
      (j, rw e)
