-- ===== src/Base/BigEndian.antt =====
-- Numbers in network order.
use Prim.Native.Nat.{ℕ, zero, suc, ◌+◌, ◌*◌, ◌/◌, ◌%◌, ◌^◌, ◌<◌}
use mathlib.Core.List.{List, [], ◌∷◌, ◌++◌}
use mathlib.Core.Path.{◌≡◌, refl, ◌∙◌}
use native.Mathlib.Omega.{arith}
use wg_wrapper.Base.Lists.{length, length-append}

-- uN::from_be_bytes, behind the octets already read
unfoldable pub from_be_bytes : List ℕ → ℕ → ℕ
from_be_bytes [] acc = acc
from_be_bytes (b ∷ bs) acc = from_be_bytes bs (acc * 256 + b)

-- to_be_bytes, or octets(), of an n-octet number
unfoldable pub to_be_bytes : ℕ → ℕ → List ℕ
to_be_bytes zero a = []
to_be_bytes (suc n) a = to_be_bytes n (a / 256) ++ a % 256 ∷ []

from_be_bytes-concat :
    (bs : List ℕ) (b acc : ℕ) → from_be_bytes (bs ++ b ∷ []) acc ≡ from_be_bytes bs acc * 256 + b
unfolding from_be_bytes
from_be_bytes-concat [] b acc = refl
from_be_bytes-concat (x ∷ bs) b acc = from_be_bytes-concat bs b (acc * 256 + x)

pow_suc : (n : ℕ) → 256 ^ suc n ≡ 256 ^ n * 256
pow_suc n = omega arith

quotient_fits : (a p : ℕ) → a < p * 256 → a / 256 < p
quotient_fits a p h = omega arith

-- An n-octet number survives.
pub from_be_bytes-to_be_bytes : (n a : ℕ) → a < 256 ^ n → from_be_bytes (to_be_bytes n a) 0 ≡ a
unfolding from_be_bytes to_be_bytes
from_be_bytes-to_be_bytes zero a h = omega arith
from_be_bytes-to_be_bytes (suc n) a h =
    let fits : a < 256 ^ n * 256 = omega (arith, pow_suc n) in
    from_be_bytes-concat (to_be_bytes n (a / 256)) (a % 256) 0
    ∙ omega (arith, from_be_bytes-to_be_bytes n (a / 256) (quotient_fits a (256 ^ n) fits))

pub length-to_be_bytes : (n a : ℕ) → length (to_be_bytes n a) ≡ n
unfolding to_be_bytes
length-to_be_bytes zero a = refl
length-to_be_bytes (suc n) a =
    omega (
      arith,
      length-append (to_be_bytes n (a / 256)) (a % 256 ∷ []),
      length-to_be_bytes n (a / 256),
    )
