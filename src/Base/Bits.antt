-- ===== src/Base/Bits.antt =====
-- Facts about `bit_and` with a mask, by evaluation over a byte or a 16-bit segment.
use Prim.Native.Nat.{ℕ, zero, suc, ◌/◌, ◌<◌, bit_and}
use mathlib.Core.Bool.{Bool, true, false, ◌&&◌}
use mathlib.Core.Path.{◌≡◌, refl}
use native.Mathlib.Omega.{arith}
use wg_wrapper.Base.Tests.{◌==◌, if◌then◌else◌}

-- Two tests agree on all numbers below n.
agree_below : ℕ → (ℕ → Bool) → (ℕ → Bool) → Bool
agree_below zero p q = true
agree_below (suc n) p q = (if p n then q n else (if q n then false else true)) && agree_below n p q

agree_below_sound : (n : ℕ) (p q : ℕ → Bool) (x : ℕ) → agree_below n p q ≡ true → x < n → p x ≡ q x
unfolding agree_below
agree_below_sound zero p q x h lt = absurd (omega arith)
agree_below_sound (suc n) p q x h lt = ground (arith, agree_below_sound n p q x)

pub bit_and-f0-10 : (x : ℕ) → x < 256 → (bit_and x 0xf0 == 16) ≡ (x / 16 == 1)
unfolding agree_below
bit_and-f0-10 x = agree_below_sound 256 (λ o. bit_and o 0xf0 == 16) (λ o. o / 16 == 1) x refl

pub bit_and-f0-f0 : (x : ℕ) → x < 256 → (bit_and x 0xf0 == 240) ≡ (x / 16 == 15)
unfolding agree_below
bit_and-f0-f0 x = agree_below_sound 256 (λ o. bit_and o 0xf0 == 240) (λ o. o / 16 == 15) x refl

pub bit_and-f0-e0 : (x : ℕ) → x < 256 → (bit_and x 0xf0 == 224) ≡ (x / 16 == 14)
unfolding agree_below
bit_and-f0-e0 x = agree_below_sound 256 (λ o. bit_and o 0xf0 == 224) (λ o. o / 16 == 14) x refl

pub bit_and-c0-40 : (x : ℕ) → x < 256 → (bit_and x 0xc0 == 64) ≡ (x / 64 == 1)
unfolding agree_below
bit_and-c0-40 x = agree_below_sound 256 (λ o. bit_and o 0xc0 == 64) (λ o. o / 64 == 1) x refl

pub bit_and-fe-12 : (x : ℕ) → x < 256 → (bit_and x 0xfe == 18) ≡ (x / 2 == 9)
unfolding agree_below
bit_and-fe-12 x = agree_below_sound 256 (λ o. bit_and o 0xfe == 18) (λ o. o / 2 == 9) x refl

pub bit_and-ffc0-fe80 : (x : ℕ) → x < 65536 → (bit_and x 0xffc0 == 0xfe80) ≡ (x / 64 == 0x3fa)
unfolding agree_below
bit_and-ffc0-fe80 x =
    agree_below_sound 65536 (λ s. bit_and s 0xffc0 == 0xfe80) (λ s. s / 64 == 0x3fa) x refl

pub bit_and-fe00-fc00 : (x : ℕ) → x < 65536 → (bit_and x 0xfe00 == 0xfc00) ≡ (x / 512 == 0x7e)
unfolding agree_below
bit_and-fe00-fc00 x =
    agree_below_sound 65536 (λ s. bit_and s 0xfe00 == 0xfc00) (λ s. s / 512 == 0x7e) x refl
