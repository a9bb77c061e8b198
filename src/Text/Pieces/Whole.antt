-- ===== src/Text/Pieces/Whole.antt =====
-- Splitting a text that was put together from pieces.
use wg_wrapper.Base.{
  ℕ, ◌≡◌, refl, sym, ap, subst, ◌∙◌, Bool, true, false, Option, none, some, Option-cases, List, [],
  ◌∷◌, ◌++◌, All, any, arith, Bool-cases, inl, inr,
}
use mathlib.Core.List.{reverse}
use mathlib.Core.List.{append-nil}
use wg_wrapper.Text.{Text, strip_prefix}
use wg_wrapper.Text.Pieces.{starts_with, found, split, first_piece, at_char, lines, lines_of}
use wg_wrapper.Text.Pieces.Trimmed.{FrontSolid, without_return-Trimmed}
use wg_wrapper.Text.Split.{Lacks}

abbrev pub Free : (ℕ → Bool) → Text → Type 0
Free p = All (λ c. p c ≡ false)

pub any-Free : (p : ℕ → Bool) (s : Text) → any p s ≡ false → Free p s
any-Free p [] h = tt
any-Free p (c ∷ s) h = (ground arith, any-Free p s (ground arith))

split-append :
    (p : ℕ → Bool) (s : Text) (c : ℕ) (t : Text)
    → Free p s
    → p c ≡ true
    → split p (s ++ c ∷ t) ≡ s ∷ split p t
unfolding split
split-append p [] c t h e = rw e
split-append p (d ∷ s) c t h e = rw (h.0, split-append p s c t h.1 e)

split-whole : (p : ℕ → Bool) (s : Text) → Free p s → split p s ≡ s ∷ []
unfolding split
split-whole p [] h = refl
split-whole p (c ∷ s) h = rw (h.0, split-whole p s h.1)

pub first_piece-whole : (p : ℕ → Bool) (default s : Text) → Free p s → first_piece p default s ≡ s
unfolding first_piece
first_piece-whole p default s h = rw (split-whole p s h)

abbrev pub EndsAt : (ℕ → Bool) → Text → Type 0
EndsAt p [] = Unit
EndsAt p (c ∷ t) = p c ≡ true

-- The first piece ends at the first character with the property, or it is all of the text.
pub first_piece-append :
    (p : ℕ → Bool) (default s t : Text) → Free p s → EndsAt p t → first_piece p default (s ++ t) ≡ s
unfolding first_piece
first_piece-append p default s [] h e =
    subst (λ u. first_piece p default u ≡ s) (sym (append-nil s)) (first_piece-whole p default s h)
first_piece-append p default s (c ∷ t) h e = rw (split-append p s c t h e)

split_some : (p : ℕ → Bool) (s : Text) → (t : Text) × (ts : List Text) × (split p s ≡ t ∷ ts)
unfolding split
split_some p [] = ([], [], refl)
split_some p (c ∷ s) =
    let (t, ts, e) = split_some p s in
    elim (Bool-cases (p c)) [ inl h ↦ ([], split p s, rw h) | inr h ↦ (c ∷ t, ts, rw (h, e)) ]

-- each line with its line feed
abbrev pub unlines : List Text → Text
unlines [] = []
unlines (line ∷ rest) = line ++ 10 ∷ unlines rest

-- no line feed, and no blank at its end
abbrev pub IsLine : Text → Type 0
IsLine s = Lacks 10 s × FrontSolid (reverse s)

pub lines-unlines : (ls : List Text) → All IsLine ls → lines (unlines ls) ≡ ls
unfolding lines split
lines-unlines [] h = refl
lines-unlines (l ∷ ls) h =
    let (t, ts, e) = split_some (at_char 10) (unlines ls) in
    ap lines_of (split-append (at_char 10) l 10 (unlines ls) h.0.0 refl ∙ ap (◌∷◌ l) e)
    ∙ ap (λ k. k ∷ lines_of (t ∷ ts)) (without_return-Trimmed l h.0.1)
    ∙ ap (λ r. l ∷ lines_of r) (sym e)
    ∙ ap (◌∷◌ l) (lines-unlines ls h.1)

pub starts_with_sound :
    (p s : Text) → starts_with p s ≡ true → (r : Text) × (strip_prefix p s ≡ some r)
unfolding strip_prefix starts_with
starts_with_sound p s h = elim (Option-cases (strip_prefix p s)) [
  | inl e ↦ absurd (refused (strip_prefix p s) e h)
  | inr (r, e) ↦ (r, e)
]
  where
    refused : (o : Option Text) → o ≡ none → found o ≡ true → ⊥
    refused none e h = cc
    refused (some r) e h = cc
