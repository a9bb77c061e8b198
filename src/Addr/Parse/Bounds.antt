-- ===== src/Addr/Parse/Bounds.antt =====
-- The address that `parse::<Ipv4Addr>` reads has 32 bits.
use wg_wrapper.Base.{
  ℕ, zero, suc, ◌+◌, ◌*◌, ◌≤◌, ◌<◌, ◌≡◌, Bool, true, false, [], ◌∷◌, Option, none, some, arith,
  length, ltb, leb, refl, some-eq, if◌then◌else◌, inl, inr, not, ◌&&◌, subst, leb→le, if-cases,
}
use wg_wrapper.Addr.{IsAddr, v4}
use wg_wrapper.Text.{Text, to_digit}
use wg_wrapper.Addr.Parse.{
  Read, and_then, within, on_digit, read_digits, read_number, counted, zero_in_front, given, after,
  separated, octets, read_ipv4_addr, whole, parse_ipv4,
}

-- What a reader reads satisfies P.
abbrev Yields : {A : Type 0} → (A → Type 0) → Read A → Type 0
Yields P none = Unit
Yields P (some (a, rest)) = P a

on_digit-Yields :
    {A : Type 0} (P : A → Type 0) (stop : Read A) (more : ℕ → Read A) (o : Option ℕ)
    → Yields P stop
    → ((d : ℕ) → Yields P (more d))
    → Yields P (on_digit stop more o)
on_digit-Yields P stop more none h f = h
on_digit-Yields P stop more (some d) h f = f d

read_digits-Yields :
    (radix max : ℕ) (limit : Option ℕ) (a n : ℕ) (s : Text)
    → a ≤ max
    → Yields (λ d. d.0 ≤ max) (read_digits radix max limit a n s)
unfolding read_digits
read_digits-Yields radix max limit a n [] h = h
read_digits-Yields radix max limit a n (c ∷ s) h =
    on_digit-Yields (λ d. d.0 ≤ max) (some ((a, n), c ∷ s)) _ (to_digit radix c) h
      (λ d.
        guarded (a * radix + d ≤ max) (read_digits radix max limit (a * radix + d) (suc n) s)
          (leb (a * radix + d) max) (within limit (suc n)) (leb→le (a * radix + d) max)
          (λ h. read_digits-Yields radix max limit (a * radix + d) (suc n) s h))
  where
    guarded :
        (P : Type 0) (r : Read (ℕ × ℕ)) (b c : Bool)
        → (b ≡ true → P)
        → (P → Yields (λ d. d.0 ≤ max) r)
        → Yields (λ d. d.0 ≤ max) (if b && c then r else none)
    guarded P r true true f g = g (f refl)
    guarded P r true false f g = tt
    guarded P r false c f g = tt

counted-Yields :
    (max : ℕ) (refused : Bool) (d : ℕ × ℕ) (rest : Text)
    → d.0 ≤ max
    → Yields (λ a. a ≤ max) (counted refused d rest)
counted-Yields max refused (a, zero) rest h = tt
counted-Yields max refused (a, suc zero) rest h = h
counted-Yields max true (a, suc (suc n)) rest h = tt
counted-Yields max false (a, suc (suc n)) rest h = h

and_then-Yields :
    {A B : Type 0} (P : A → Type 0) (Q : B → Type 0) (r : Read A) (next : A → Text → Read B)
    → Yields P r
    → ((a : A) (rest : Text) → P a → Yields Q (next a rest))
    → Yields Q (and_then r next)
and_then-Yields P Q none next h f = tt
and_then-Yields P Q (some (a, rest)) next h f = f a rest h

read_number-Yields :
    (radix max : ℕ) (limit : Option ℕ) (allow : Bool) (s : Text)
    → Yields (λ a. a ≤ max) (read_number radix max limit allow s)
unfolding read_number
read_number-Yields radix max limit allow s =
    and_then-Yields (λ d. d.0 ≤ max) (λ a. a ≤ max) (read_digits radix max limit 0 0 s) _
      (read_digits-Yields radix max limit 0 0 s (omega arith))
      (λ d rest h. counted-Yields max (not allow && zero_in_front s) d rest h)

after-Yields :
    {A : Type 0} (P : A → Type 0) (o : Option Text) (next : Text → Read A)
    → ((t : Text) → Yields P (next t))
    → Yields P (after o next)
after-Yields P none next f = tt
after-Yields P (some t) next f = f t

separated-Yields :
    {A : Type 0} (P : A → Type 0) (sep i : ℕ) (s : Text) (next : Text → Read A)
    → ((t : Text) → Yields P (next t))
    → Yields P (separated sep i s next)
separated-Yields P sep zero s next f = f s
separated-Yields P sep (suc i) s next f = after-Yields P (given sep s) next f

-- m * 256 ^ n
abbrev scaled : ℕ → ℕ → ℕ
scaled m zero = m
scaled m (suc n) = scaled (m * 256) n

octets-Yields : (n i a m : ℕ) (s : Text) → a < m → Yields (λ b. b < scaled m n) (octets n i a s)
unfolding octets
octets-Yields zero i a m s h = h
octets-Yields (suc n) i a m s h =
    and_then-Yields (λ d. d ≤ 255) (λ b. b < scaled m (suc n))
      (separated b'.' i s (read_number 10 255 (some 3) false)) _
      (separated-Yields (λ d. d ≤ 255) b'.' i s (read_number 10 255 (some 3) false)
        (λ t. read_number-Yields 10 255 (some 3) false t))
      (λ d rest le. octets-Yields n (suc i) (a * 256 + d) (m * 256) rest (omega (arith, h, le)))

whole-Yields :
    {A : Type 0} (P : A → Type 0) (r : Read A) (a : A) → Yields P r → whole r ≡ some a → P a
whole-Yields P none a h e = cc
whole-Yields P (some (b, [])) a h e = subst P (some-eq e) h
whole-Yields P (some (b, c ∷ rest)) a h e = cc

pub parse_ipv4-IsAddr : (s : Text) (a : ℕ) → parse_ipv4 s ≡ some a → IsAddr (v4 a)
unfolding parse_ipv4 read_ipv4_addr
parse_ipv4-IsAddr s a e = elim (if-cases (λ o. o ≡ some a) (ltb 15 (length s)) e) [
  | inl (t, e) ↦ cc
  | inr (f, e) ↦
      whole-Yields (λ a. IsAddr (v4 a)) (read_ipv4_addr s) a (octets-Yields 4 0 0 1 s (omega arith))
        e
]
