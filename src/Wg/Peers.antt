-- ===== src/Wg/Peers.antt =====
-- The table of keys and the list of peers agree, under every operation.
use mathlib.Core.List.{map-append}
use wg_wrapper.Base.{
  ℕ, zero, suc, ◌≡◌, ◌≢◌, refl, sym, ap, subst, List, [], ◌∷◌, ◌++◌, map, Bytes, Option, none, some,
  arith, ◌⊎◌, inl, inr, get_elem?, set, length, bytes_eq, bytes_eq_sound, bytes_eq_refl, Bool-cases,
  Result, ok, err, get_elem?-append_cases, get_elem?-append_left, get_elem?-append_length,
}
use wg_wrapper.Noise.{Noise}
use wg_wrapper.Wg.{Peer, Wg, new, add_peer, register, lookup, AddError, duplicate_peer}

lookup-eq :
    (k j : Bytes) (i : ℕ) (m : List (Bytes × ℕ)) (x : ℕ)
    → lookup k ((j, i) ∷ m) ≡ some x
    → ((j ≡ k) × (i ≡ x)) ⊎ (lookup k m ≡ some x)
unfolding lookup
lookup-eq k j i m x e = elim (Bool-cases (bytes_eq j k)) [
  | inl t ↦ inl (bytes_eq_sound j k t, ground arith)
  | inr f ↦ inr (ground arith)
]

lookup_self : (k : Bytes) (i : ℕ) (m : List (Bytes × ℕ)) → lookup k ((k, i) ∷ m) ≡ some i
unfolding lookup
lookup_self k i m = rw (bytes_eq_refl k)

lookup_other :
    (k j : Bytes) (i : ℕ) (m : List (Bytes × ℕ)) (x : ℕ)
    → lookup j m ≡ none
    → lookup k m ≡ some x
    → lookup k ((j, i) ∷ m) ≡ some x
unfolding lookup
lookup_other k j i m x absent e = elim (Bool-cases (bytes_eq j k)) [
  | inl t ↦
      absurd (subst (λ o. o ≢ some x) (ap (λ z. lookup z m) (bytes_eq_sound j k t)) (λ h. cc) e)
  | inr f ↦ rw f e
]

module _ (noise : Noise) where
  abbrev pub keys : List (Peer noise) → List Bytes
  keys = map (λ p. p.public_key)

  -- Each key in the table leads to the peer with that key, and each peer is found by its key.
  pub record Indexed (ks : List Bytes) (by_key : List (Bytes × ℕ)) : Type 0 where
    pub known : (k : Bytes) (i : ℕ) → lookup k by_key ≡ some i → get_elem? ks i ≡ some k
    pub listed : (k : Bytes) (i : ℕ) → get_elem? ks i ≡ some k → lookup k by_key ≡ some i

  abbrev pub IsIndexed : Wg noise → Type 0
  IsIndexed wg = Indexed (keys wg.peers) wg.by_key

  pub new-IsIndexed : (private public : Bytes) (now : ℕ) → IsIndexed (new noise private public now)
  unfolding new lookup
  new-IsIndexed private public now = record { known = λ k i e. cc; listed = λ k i e. cc }

  length-keys : (ps : List (Peer noise)) → length (keys ps) ≡ length ps
  length-keys [] = refl
  length-keys (p ∷ ps) = ap suc (length-keys ps)

  Indexed-concat :
      (ks : List Bytes) (by_key : List (Bytes × ℕ)) (k : Bytes)
      → Indexed ks by_key
      → lookup k by_key ≡ none
      → Indexed (ks ++ k ∷ []) ((k, length ks) ∷ by_key)
  Indexed-concat ks by_key k v fresh = record { known = known; listed = listed }
    where
      known :
          (j : Bytes) (i : ℕ)
          → lookup j ((k, length ks) ∷ by_key) ≡ some i
          → get_elem? (ks ++ k ∷ []) i ≡ some j
      known j i e = elim (lookup-eq j k (length ks) by_key i e) [
        | inl (same, last) ↦ rw (← last, ← same) (get_elem?-append_length ks k [])
        | inr old ↦ get_elem?-append_left ks (k ∷ []) i (v.known j i old)
      ]

      listed :
          (j : Bytes) (i : ℕ)
          → get_elem? (ks ++ k ∷ []) i ≡ some j
          → lookup j ((k, length ks) ∷ by_key) ≡ some i
      listed j i e = elim (get_elem?-append_cases ks k i e) [
        | inl old ↦ lookup_other j k (length ks) by_key i fresh (v.listed j i old)
        | inr (last, same) ↦ rw (last, ← same) (lookup_self k (length ks) by_key)
      ]

  -- A known key is refused; a new one goes last.
  abbrev pub Added : Wg noise → Bytes → Result AddError (Wg noise × ℕ) → Type 0
  Added wg k r =
      ((i : ℕ) × (get_elem? (keys wg.peers) i ≡ some k) × (r ≡ err duplicate_peer))
      ⊎ ((wg' : Wg noise) × (r ≡ ok (wg', length wg.peers))
          × (keys wg'.peers ≡ keys wg.peers ++ k ∷ [])
          × IsIndexed wg')

  register-Added :
      (wg : Wg noise) (k : Bytes) (psk : Option Bytes) (keepalive found : Option ℕ)
      → IsIndexed wg
      → lookup k wg.by_key ≡ found
      → Added wg k (register noise wg k psk keepalive found)
  unfolding register
  register-Added wg k psk keepalive (some i) v e = inl (i, v.known k i e, refl)
  register-Added wg k psk keepalive none v e =
      let grown = map-append (λ p. p.public_key) wg.peers _ in
      inr (
        _,
        refl,
        grown,
        subst (λ ks. Indexed ks ((k, length wg.peers) ∷ wg.by_key)) (sym grown)
            (subst (λ n. Indexed (keys wg.peers ++ k ∷ []) ((k, n) ∷ wg.by_key))
              (length-keys wg.peers) (Indexed-concat (keys wg.peers) wg.by_key k v e)),
      )

  -- `add_peer` refuses exactly the keys that a peer already has, and gives a new one the next
  -- index; the table stays in step with the list.
  pub add_peer-Added :
      (wg : Wg noise) (k : Bytes) (psk : Option Bytes) (keepalive : Option ℕ)
      → IsIndexed wg
      → Added wg k (add_peer noise wg k psk keepalive)
  unfolding add_peer
  add_peer-Added wg k psk keepalive v =
      register-Added wg k psk keepalive (lookup k wg.by_key) v refl

  -- A peer stored with its own key changes no key.
  pub keys-set :
      (ps : List (Peer noise)) (i : ℕ) (p new : Peer noise)
      → get_elem? ps i ≡ some p
      → new.public_key ≡ p.public_key
      → keys (set ps i new) ≡ keys ps
  keys-set [] i p new e h = refl
  keys-set (q ∷ ps) zero p new e h = let same : q ≡ p = ground arith in rw (h, same)
  keys-set (q ∷ ps) (suc i) p new e h = ap (◌∷◌ q.public_key) (keys-set ps i p new e h)
