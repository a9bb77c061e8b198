-- ===== src/Text.antt =====
-- The parts of std::str that the crates use. A text is the list of its code points.
pub mod Utf8
pub mod Split
pub mod Pieces
pub mod Numbers
use wg_wrapper.Base.{
  ℕ, zero, suc, ◌+◌, ◌-◌, ◌*◌, Bool, true, false, not, ◌&&◌, ◌||◌, List, [], ◌∷◌, ◌++◌, Option,
  none, some, ltb, leb, ◌==◌, between, if◌then◌else◌,
}
use Prim.Native.Char.{code}
use Prim.Native.String.{String}
use mathlib.Core.List.{reverse}

abbrev pub Text : Type 0
Text = List ℕ

-- a literal of the source
abbrev pub codes : String → Text
codes String.[] = []
codes (String.◌∷◌ c s) = code c ∷ codes s

-- char::is_whitespace: the code points with the property White_Space
unfoldable pub is_whitespace : ℕ → Bool
is_whitespace c =
    between 9 13 c
    || c == 32
    || c == 0x85
    || c == 0xa0
    || c == 0x1680
    || between 0x2000 0x200a c
    || c == 0x2028
    || c == 0x2029
    || c == 0x202f
    || c == 0x205f
    || c == 0x3000

unfoldable pub trim_start_matches : (ℕ → Bool) → Text → Text
trim_start_matches p [] = []
trim_start_matches p (c ∷ s) = let rest = trim_start_matches p s in if p c then rest else c ∷ s

unfoldable pub trim_end_matches : (ℕ → Bool) → Text → Text
unfolding trim_start_matches
trim_end_matches p s = reverse (trim_start_matches p (reverse s))

unfoldable pub trim : Text → Text
unfolding trim_end_matches trim_start_matches is_whitespace
trim s = trim_end_matches is_whitespace (trim_start_matches is_whitespace s)

unfoldable pub strip_prefix : Text → Text → Option Text
strip_prefix [] s = some s
strip_prefix (p ∷ ps) [] = none
strip_prefix (p ∷ ps) (c ∷ s) = let rest = strip_prefix ps s in if p == c then rest else none

abbrev prepend : ℕ → Option (Text × Text) → Option (Text × Text)
prepend c none = none
prepend c (some (before, after)) = some (c ∷ before, after)

-- at the first occurrence
unfoldable pub split_once : ℕ → Text → Option (Text × Text)
split_once sep [] = none
split_once sep (c ∷ s) =
    let rest = split_once sep s in if c == sep then some ([], s) else prepend c rest

abbrev or_here : ℕ → ℕ → Text → Option (Text × Text) → Option (Text × Text)
or_here sep c s none = if c == sep then some ([], s) else none
or_here sep c s (some (before, after)) = some (c ∷ before, after)

-- at the last occurrence
unfoldable pub rsplit_once : ℕ → Text → Option (Text × Text)
rsplit_once sep [] = none
rsplit_once sep (c ∷ s) = or_here sep c s (rsplit_once sep s)

-- char::to_digit
unfoldable pub to_digit : ℕ → ℕ → Option ℕ
to_digit radix c =
    if between b'0' b'9' c && ltb (c - b'0') radix
    then some (c - b'0')
    else if between b'a' b'z' c && ltb (c - b'a' + 10) radix
    then some (c - b'a' + 10)
    else if between b'A' b'Z' c && ltb (c - b'A' + 10) radix
    then some (c - b'A' + 10)
    else none

abbrev add_digit : ℕ → ℕ → Option ℕ → Option ℕ → Option ℕ
add_digit radix max none d = none
add_digit radix max (some a) none = none
add_digit radix max (some a) (some d) =
    if leb (a * radix + d) max then some (a * radix + d) else none

-- The loop over the digits: `none` at another character, or when the number passes `max`.
unfoldable pub digits_from : ℕ → ℕ → Option ℕ → Text → Option ℕ
digits_from radix max acc [] = acc
digits_from radix max acc (c ∷ s) =
    digits_from radix max (add_digit radix max acc (to_digit radix c)) s

-- from_str_radix of the unsigned type whose largest value is `max`: one sign `+` may stand in front.
unfoldable pub from_str_radix : ℕ → ℕ → Text → Option ℕ
unfolding digits_from to_digit
from_str_radix radix max [] = none
from_str_radix radix max (c ∷ []) = digits_from radix max (some 0) (c ∷ [])
from_str_radix radix max (c ∷ d ∷ s) =
    digits_from radix max (some 0) (if c == b'+' then d ∷ s else c ∷ d ∷ s)

-- str::parse::<u16>
abbrev pub parse_u16 : Text → Option ℕ
parse_u16 = from_str_radix 10 0xffff
