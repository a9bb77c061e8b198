-- ===== src/ClientWin/Names/Slugs.antt =====
-- crates/client-win/src-tauri/src/main.rs: what `slug` makes of any name.
use mathlib.Core.List.{reverse, reverse-cons}
use wg_wrapper.Base.{
  ℕ, ◌≡◌, refl, sym, subst, Bool, Bool-cases, true, ◌||◌, [], ◌∷◌, map, All, All-append, arith, inl,
  inr, ◌==◌, between,
}
use wg_wrapper.ClientWin.Names.{slug, slug_char, name_or_default}
use wg_wrapper.Text.{Text, trim_start_matches, trim_end_matches}

-- a lower-case letter, a digit or a dash
abbrev pub IsSafe : ℕ → Type 0
IsSafe c = (between b'a' b'z' c || between b'0' b'9' c || c == b'-') ≡ true

slug_char-IsSafe : (c : ℕ) → IsSafe (slug_char c)
unfolding slug_char
slug_char-IsSafe c = ground arith

map-IsSafe : (s : Text) → All IsSafe (map slug_char s)
map-IsSafe [] = tt
map-IsSafe (c ∷ s) = (slug_char-IsSafe c, map-IsSafe s)

All-trim_start_matches :
    (P : ℕ → Type 0) (p : ℕ → Bool) (s : Text) → All P s → All P (trim_start_matches p s)
unfolding trim_start_matches
All-trim_start_matches P p [] h = tt
All-trim_start_matches P p (c ∷ s) h = elim (Bool-cases (p c)) [
  | inl t ↦ rw t (All-trim_start_matches P p s h.1)
  | inr f ↦ rw f h
]

All-reverse : (P : ℕ → Type 0) (s : Text) → All P s → All P (reverse s)
All-reverse P [] h = tt
All-reverse P (c ∷ s) h =
    subst (All P) (sym (reverse-cons c s))
      (All-append P (reverse s) (c ∷ []) (All-reverse P s h.1) (h.0, tt))

abbrev pub Filled : Text → Type 0
Filled s = (c : ℕ) × (t : Text) × (s ≡ c ∷ t) × All IsSafe s

name_or_default-Filled : (s : Text) → All IsSafe s → Filled (name_or_default s)
unfolding name_or_default
name_or_default-Filled [] h =
    (_, _, refl, (refl, (refl, (refl, (refl, (refl, (refl, (refl, tt))))))))
name_or_default-Filled (c ∷ s) h = (c, s, refl, h)

-- Whatever the name, the file's has at least one character, and only lower-case letters, digits
-- and dashes: it names a file of the directory.
pub slug-Filled : (name : Text) → Filled (slug name)
unfolding slug trim_end_matches
slug-Filled name =
    let dash : ℕ → Bool = λ c. c == b'-' in
    let front = trim_start_matches dash (map slug_char name) in
    name_or_default-Filled (trim_end_matches dash front) (
      All-reverse IsSafe (trim_start_matches dash (reverse front)) (
        All-trim_start_matches IsSafe dash (reverse front) (
          All-reverse IsSafe front
            (All-trim_start_matches IsSafe dash (map slug_char name) (map-IsSafe name)))))
