-- ===== src/Text/Numbers.antt =====
-- The numbers that are read from a text fit their type.
use wg_wrapper.Base.{ℕ, ◌≤◌, ◌≡◌, [], ◌∷◌, Option, none, some, arith, ◌==◌, if◌then◌else◌}
use wg_wrapper.Text.{Text, from_str_radix, digits_from, to_digit, add_digit}

abbrev Bounded : ℕ → Option ℕ → Type 0
Bounded max o = (n : ℕ) → o ≡ some n → n ≤ max

add_digit-Bounded : (radix max : ℕ) (acc d : Option ℕ) → Bounded max (add_digit radix max acc d)
add_digit-Bounded radix max none d n e = cc
add_digit-Bounded radix max (some a) none n e = cc
add_digit-Bounded radix max (some a) (some d) n e = ground arith

digits_from-Bounded :
    (radix max : ℕ) (acc : Option ℕ) (s : Text)
    → Bounded max acc
    → Bounded max (digits_from radix max acc s)
unfolding digits_from
digits_from-Bounded radix max acc [] h = h
digits_from-Bounded radix max acc (c ∷ s) h =
    digits_from-Bounded radix max (add_digit radix max acc (to_digit radix c)) s
      (add_digit-Bounded radix max acc (to_digit radix c))

zero-Bounded : (max : ℕ) → Bounded max (some 0)
zero-Bounded max n e = ground arith

-- A number that is read fits its type.
pub from_str_radix-Bounded :
    (radix max : ℕ) (s : Text) (n : ℕ) → from_str_radix radix max s ≡ some n → n ≤ max
unfolding from_str_radix
from_str_radix-Bounded radix max [] n e = cc
from_str_radix-Bounded radix max (c ∷ []) n e =
    digits_from-Bounded radix max (some 0) (c ∷ []) (zero-Bounded max) n e
from_str_radix-Bounded radix max (c ∷ d ∷ s) n e =
    digits_from-Bounded radix max (some 0) (if c == b'+' then d ∷ s else c ∷ d ∷ s)
      (zero-Bounded max) n e
