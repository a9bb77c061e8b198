-- ===== src/Text/Pieces.antt =====
-- The iterators over the parts of a text, and the ASCII conversions.
pub mod Trimmed
pub mod Whole
use wg_wrapper.Base.{
  ℕ, ◌+◌, Bool, true, false, List, [], ◌∷◌, Option, none, some, map, ◌==◌, between, if◌then◌else◌,
  bytes_eq,
}
use mathlib.Core.List.{reverse}
use wg_wrapper.Text.{Text, is_whitespace, strip_prefix}

-- char::to_ascii_lowercase
abbrev pub lower_char : ℕ → ℕ
lower_char c = if between b'A' b'Z' c then c + 32 else c

-- str::to_ascii_lowercase
abbrev pub to_ascii_lowercase : Text → Text
to_ascii_lowercase = map lower_char

-- str::eq_ignore_ascii_case
unfoldable pub eq_ignore_ascii_case : Text → Text → Bool
unfolding bytes_eq
eq_ignore_ascii_case s t = bytes_eq (to_ascii_lowercase s) (to_ascii_lowercase t)

abbrev pub is_empty {ℓ} : {A : Type ℓ} → List A → Bool
is_empty [] = true
is_empty (_ ∷ _) = false

abbrev found : Option Text → Bool
found none = false
found (some _) = true

-- str::starts_with
unfoldable pub starts_with : Text → Text → Bool
unfolding strip_prefix
starts_with p s = found (strip_prefix p s)

abbrev into_first : ℕ → List Text → List Text
into_first c [] = (c ∷ []) ∷ []
into_first c (piece ∷ pieces) = (c ∷ piece) ∷ pieces

-- str::split, at each character with the property; there is always a first piece
unfoldable pub split : (ℕ → Bool) → Text → List Text
split p [] = [] ∷ []
split p (c ∷ s) = let rest = split p s in if p c then [] ∷ rest else into_first c rest

abbrev pub at_char : ℕ → ℕ → Bool
at_char sep c = c == sep

abbrev first_or : Text → List Text → Text
first_or default [] = default
first_or default (piece ∷ _) = piece

-- split(p).next().unwrap_or(default)
unfoldable pub first_piece : (ℕ → Bool) → Text → Text → Text
unfolding split
first_piece p default s = first_or default (split p s)

abbrev unless_return : Text → Text → Text
unless_return s [] = s
unless_return s (c ∷ r) = if c == 13 then reverse r else s

-- strip_suffix('\r')
abbrev without_return : Text → Text
without_return s = unless_return s (reverse s)

-- The pieces between the line feeds: an empty last one is no line, and only a line that ended in a
-- feed loses a carriage return.
abbrev last_line : Text → List Text
last_line [] = []
last_line (c ∷ s) = (c ∷ s) ∷ []

abbrev lines_of : List Text → List Text
lines_of [] = []
lines_of (piece ∷ []) = last_line piece
lines_of (piece ∷ next ∷ pieces) = without_return piece ∷ lines_of (next ∷ pieces)

-- str::lines
unfoldable pub lines : Text → List Text
unfolding split
lines s = lines_of (split (at_char 10) s)

abbrev full : List Text → List Text
full [] = []
full (piece ∷ pieces) = if is_empty piece then full pieces else piece ∷ full pieces

-- str::split_whitespace: the pieces that are not empty
unfoldable pub split_whitespace : Text → List Text
unfolding split is_whitespace
split_whitespace s = full (split is_whitespace s)
