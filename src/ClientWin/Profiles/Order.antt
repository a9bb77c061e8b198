-- ===== src/ClientWin/Profiles/Order.antt =====
-- crates/client-win/src-tauri/src/main.rs: `sort_by` of `list_profiles` sorts, by the names in lower
-- case, and neither loses nor repeats a profile.
use mathlib.Core.List.Perm
use mathlib.Core.List.{Perm}
use wg_wrapper.Base.{◌≡◌, refl, Bool-cases, true, false, List, [], ◌∷◌, inl, inr, arith}
use wg_wrapper.ClientWin.Profiles.{Profile, text_le, before, insert, sort_by}
use wg_wrapper.Text.{Text}

text_le_total : (s t : Text) → text_le s t ≡ false → text_le t s ≡ true
unfolding text_le
text_le_total [] t h = cc
text_le_total (c ∷ s) [] h = refl
text_le_total (c ∷ s) (d ∷ t) h = ground (arith, text_le_total s t)

module _ (to_lowercase : Text → Text) where
  abbrev pub BeforeFirst : Profile → List Profile → Type 0
  BeforeFirst p [] = Unit
  BeforeFirst p (q ∷ qs) = before to_lowercase p q ≡ true

  -- each name, in lower case, is no larger than the next
  abbrev pub Sorted : List Profile → Type 0
  Sorted [] = Unit
  Sorted (p ∷ ps) = BeforeFirst p ps × Sorted ps

  insert-BeforeFirst :
      (p q : Profile) (qs : List Profile)
      → before to_lowercase q p ≡ true
      → BeforeFirst q qs
      → BeforeFirst q (insert to_lowercase p qs)
  unfolding insert
  insert-BeforeFirst p q [] h k = h
  insert-BeforeFirst p q (r ∷ rs) h k = elim (Bool-cases (before to_lowercase p r)) [
    | inl first ↦ rw first h
    | inr later ↦ rw later k
  ]

  insert-Sorted : (p : Profile) (ps : List Profile) → Sorted ps → Sorted (insert to_lowercase p ps)
  unfolding insert
  insert-Sorted p [] h = (tt, tt)
  insert-Sorted p (q ∷ qs) h = elim (Bool-cases (before to_lowercase p q)) [
    | inl first ↦ rw first (first, h)
    | inr later ↦ rw later (
      insert-BeforeFirst p q qs (text_le_total (to_lowercase p.name) (to_lowercase q.name) later)
          h.0,
      insert-Sorted p qs h.1,
    )
  ]

  pub sort_by-Sorted : (ps : List Profile) → Sorted (sort_by to_lowercase ps)
  unfolding sort_by
  sort_by-Sorted [] = tt
  sort_by-Sorted (p ∷ ps) = insert-Sorted p (sort_by to_lowercase ps) (sort_by-Sorted ps)

  insert-perm : (p : Profile) (ps : List Profile) → Perm (insert to_lowercase p ps) (p ∷ ps)
  unfolding insert
  insert-perm p [] = Perm.rfl
  insert-perm p (q ∷ qs) = elim (Bool-cases (before to_lowercase p q)) [
    | inl first ↦ rw first Perm.rfl
    | inr later ↦ rw later (Perm.trans (Perm.cons q (insert-perm p qs)) (Perm.swap p q qs))
  ]

  pub sort_by-perm : (ps : List Profile) → Perm (sort_by to_lowercase ps) ps
  unfolding sort_by
  sort_by-perm [] = Perm.rfl
  sort_by-perm (p ∷ ps) =
      Perm.trans (insert-perm p (sort_by to_lowercase ps)) (Perm.cons p (sort_by-perm ps))
