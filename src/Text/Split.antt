-- ===== src/Text/Split.antt =====
-- What the splitting functions do on texts put together from their parts.
use wg_wrapper.Base.{ℕ, ◌≡◌, refl, false, [], ◌∷◌, ◌++◌, Option, none, some, arith, All, any, ◌==◌}
use wg_wrapper.Text.{Text, strip_prefix, split_once, rsplit_once, or_here}

-- the character does not occur
abbrev pub Lacks : ℕ → Text → Type 0
Lacks sep = All (λ c. (c == sep) ≡ false)

pub any-Lacks : (sep : ℕ) (s : Text) → any (λ c. c == sep) s ≡ false → Lacks sep s
any-Lacks sep [] h = tt
any-Lacks sep (c ∷ s) h = (ground arith, any-Lacks sep s (ground arith))

pub Lacks-append : (sep : ℕ) (s t : Text) → Lacks sep s → Lacks sep t → Lacks sep (s ++ t)
Lacks-append sep [] t hs ht = ht
Lacks-append sep (c ∷ s) t hs ht = (hs.0, Lacks-append sep s t hs.1 ht)

pub strip_prefix-append : (p s : Text) → strip_prefix p (p ++ s) ≡ some s
unfolding strip_prefix
strip_prefix-append [] s = refl
strip_prefix-append (c ∷ p) s = ground (arith, strip_prefix-append p s)

pub split_once-append :
    (sep : ℕ) (s t : Text) → Lacks sep s → split_once sep (s ++ sep ∷ t) ≡ some (s, t)
unfolding split_once
split_once-append sep [] t h = ground arith
split_once-append sep (c ∷ s) t h = ground (arith, split_once-append sep s t h.1)

pub rsplit_once-none : (sep : ℕ) (t : Text) → Lacks sep t → rsplit_once sep t ≡ none
unfolding rsplit_once
rsplit_once-none sep [] h = refl
rsplit_once-none sep (c ∷ t) h = ground (arith, rsplit_once-none sep t h.1)

pub rsplit_once-append :
    (sep : ℕ) (s t : Text) → Lacks sep t → rsplit_once sep (s ++ sep ∷ t) ≡ some (s, t)
unfolding rsplit_once
rsplit_once-append sep [] t h = ground (arith, rsplit_once-none sep t h)
rsplit_once-append sep (c ∷ s) t h = ground (arith, rsplit_once-append sep s t h)

pub strip_prefix_sound : (p s r : Text) → strip_prefix p s ≡ some r → s ≡ p ++ r
unfolding strip_prefix
strip_prefix_sound [] s r e = ground arith
strip_prefix_sound (c ∷ p) [] r e = cc
strip_prefix_sound (c ∷ p) (d ∷ s) r e = ground (arith, strip_prefix_sound p s r)

or_here_sound :
    (sep c : ℕ) (s : Text) (o : Option (Text × Text)) (a b : Text)
    → ((x y : Text) → o ≡ some (x, y) → s ≡ x ++ sep ∷ y)
    → or_here sep c s o ≡ some (a, b)
    → (c ∷ s) ≡ a ++ sep ∷ b
or_here_sound sep c s none a b ih k = ground arith
or_here_sound sep c s (some (x, y)) a b ih k = ground (arith, ih x y refl)

-- The parts of a split, put together again, are the text.
pub rsplit_once_sound :
    (sep : ℕ) (s a b : Text) → rsplit_once sep s ≡ some (a, b) → s ≡ a ++ sep ∷ b
unfolding rsplit_once
rsplit_once_sound sep [] a b e = cc
rsplit_once_sound sep (c ∷ s) a b e =
    or_here_sound sep c s (rsplit_once sep s) a b (rsplit_once_sound sep s) e
