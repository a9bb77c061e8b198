-- ===== src/Base/Results.antt =====
-- Fallible code: a value or an error of the component's own type, with the notation of `?`.
use mathlib.Core.Bool.{Bool, true, false}
use mathlib.Core.Option.{Option, none, some}
use mathlib.Core.Path.{◌≡◌, refl}
use native.Mathlib.Omega.{arith}

-- Result<A, E>
pub data Result {ℓ} (E : Type 0) (A : Type ℓ) : Type ℓ where
  err : E → Result E A
  ok : A → Result E A

-- Result::map_err
abbrev pub map_err {ℓ} : {E F : Type 0} {A : Type ℓ} → (E → F) → Result E A → Result F A
map_err wrap (err e) = err (wrap e)
map_err wrap (ok a) = ok a

module _ {E : Type 0} where
  -- the `?` of the source
  infixl 5 ◌>>=◌
  abbrev pub ◌>>=◌ {ℓ κ} :
      {A : Type ℓ} {B : Type κ} (r : Result E A) (next : A → Result E B) → Result E B
  err e >>= next = err e
  ok a >>= next = next a

  infixl 5 ◌>>◌
  abbrev pub ◌>>◌ {ℓ} : {B : Type ℓ} (r : Result E (Unit {0})) (next : Result E B) → Result E B
  r >> next = r >>= (λ u. next)

  -- anyhow::ensure!
  abbrev pub ensure : (holds : Bool) (otherwise : E) → Result E (Unit {0})
  ensure false otherwise = err otherwise
  ensure true otherwise = ok tt

-- Option::ok_or
abbrev pub ok_or {ℓ} : {E : Type 0} {A : Type ℓ} → Option A → E → Result E A
ok_or none e = err e
ok_or (some a) e = ok a

-- the value of a result whose value is not used
abbrev pub done {ℓ} : {E : Type 0} {A : Type ℓ} → Result E A → Result E (Unit {0})
done (ok a) = ok tt
done (err e) = err e

-- A chain that succeeds has a first step that succeeds.
pub >>=-eq-ok {ℓ κ} :
    {E : Type 0} {A : Type ℓ} {B : Type κ} (r : Result E A) (next : A → Result E B) {last : B}
    → (r >>= next) ≡ ok last
    → (first : A) × (r ≡ ok first) × (next first ≡ ok last)
>>=-eq-ok (err e) next succeeds = cc
>>=-eq-ok (ok first) next succeeds = (first, refl, succeeds)

pub ok-eq {ℓ} : {E : Type 0} {A : Type ℓ} {a b : A} → ◌≡◌ {A = Result E A} (ok a) (ok b) → a ≡ b
ok-eq e = ground arith

pub ensure-eq-ok : {E : Type 0} (b : Bool) (e : E) {u : Unit {0}} → ensure b e ≡ ok u → b ≡ true
ensure-eq-ok true e h = refl
ensure-eq-ok false e h = cc

pub ok_or-eq-ok {ℓ} :
    {E : Type 0} {A : Type ℓ} (o : Option A) (e : E) {a : A} → ok_or o e ≡ ok a → o ≡ some a
ok_or-eq-ok (some a) e h = ground arith
ok_or-eq-ok none e h = cc

pub done-eq-ok {ℓ} :
    {E F : Type 0} {A : Type ℓ} (f : E → F) (m : Result E A)
    → done (map_err f m) ≡ ok tt
    → (a : A) × (m ≡ ok a)
done-eq-ok f (ok a) h = (a, refl)
done-eq-ok f (err e) h = cc
