-- ===== src/Text/Pieces/Trimmed.antt =====
-- Texts with no blank at either end, which trimming leaves alone.
use mathlib.Core.List.{reverse, reverse-append, reverse-reverse}
use wg_wrapper.Base.{ℕ, ◌≡◌, refl, ap, subst, sym, ◌∙◌, false, [], ◌∷◌, ◌++◌, arith}
use wg_wrapper.Text.{Text, trim, trim_end_matches, trim_start_matches, is_whitespace}
use wg_wrapper.Text.Pieces.{unless_return, without_return}

abbrev pub FrontSolid : Text → Type 0
FrontSolid [] = Unit
FrontSolid (c ∷ _) = is_whitespace c ≡ false

abbrev pub Trimmed : Text → Type 0
Trimmed s = FrontSolid s × FrontSolid (reverse s)

FrontSolid-append : (s t : Text) → FrontSolid s → FrontSolid t → FrontSolid (s ++ t)
FrontSolid-append [] t hs ht = ht
FrontSolid-append (c ∷ s) t hs ht = hs

trim_start_matches-FrontSolid : (s : Text) → FrontSolid s → trim_start_matches is_whitespace s ≡ s
unfolding trim_start_matches
trim_start_matches-FrontSolid [] h = refl
trim_start_matches-FrontSolid (c ∷ s) h = rw h

pub trim-Trimmed : (s : Text) → Trimmed s → trim s ≡ s
unfolding trim trim_end_matches
trim-Trimmed s h = rw (
  trim_start_matches-FrontSolid s h.0,
  trim_start_matches-FrontSolid (reverse s) h.1,
  reverse-reverse s,
)

reverse-between :
    (s : Text) (c : ℕ) (t : Text) → reverse (s ++ c ∷ t) ≡ (reverse t ++ c ∷ []) ++ reverse s
reverse-between s c t =
    reverse-append s (c ∷ t) ∙ ap (λ r. r ++ reverse s) (reverse-append (c ∷ []) t)

-- Two trimmed texts around a character that is no blank; the first is not empty.
pub Trimmed-append :
    (a : ℕ) (s : Text) (c : ℕ) (t : Text)
    → Trimmed (a ∷ s)
    → is_whitespace c ≡ false
    → Trimmed t
    → Trimmed (a ∷ s ++ c ∷ t)
Trimmed-append a s c t hs hc ht = (
  hs.0,
  subst FrontSolid (sym (reverse-between (a ∷ s) c t)) (
      FrontSolid-append (reverse t ++ c ∷ []) (reverse (a ∷ s))
        (FrontSolid-append (reverse t) (c ∷ []) ht.1 hc) hs.1),
)

-- A carriage return is a blank.
kept : (s r : Text) → FrontSolid r → unless_return s r ≡ s
unfolding is_whitespace
kept s [] h = refl
kept s (c ∷ r) h = ground arith

pub without_return-Trimmed : (s : Text) → FrontSolid (reverse s) → without_return s ≡ s
without_return-Trimmed s h = kept s (reverse s) h
