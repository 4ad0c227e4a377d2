-- ===== src/Prelude/Digits.antt =====
-- The binary digit at a position of the result of a bit operation, at every width.
use Prim.Native.Nat.{
  ℕ, zero, suc, ◌+◌, ◌*◌, ◌/◌, ◌%◌, ◌^◌, ◌-◌, ◌≤◌, ◌<◌, min, max, bit_and, bit_or, bit_xor,
}
use mathlib.Core.Path.{◌≡◌, refl, sym}
use native.Mathlib.Nat.{
  pow-suc, pow-succ', div-div-eq-div-mul, div-add-mod', mul-add-mod_self_right, mod-eq_of_lt,
  mod-lt, one-le-pow, add-zero, add-suc, mul-one, div-one,
}
use native.Mathlib.Omega.{arith}
use oberon.Prelude.Bits.{bit_and_step, bit_or_step, bit_xor_step, bit_and-zero, double_pow}

-- Binary digit `k` of `a`.
abbrev pub bit : ℕ → ℕ → ℕ
bit k a = a / 2 ^ k % 2

pub bit-suc : (k a : ℕ) → bit (suc k) a ≡ bit k (a / 2)
bit-suc k a = rw (pow-succ', ← div-div-eq-div-mul)

half : (a q d : ℕ) → a ≡ q * 2 + d → d < 2 → a / 2 ≡ q
half a q d e h = omega arith

bit_and-half : (a b : ℕ) → bit_and a b / 2 ≡ bit_and (a / 2) (b / 2)
bit_and-half a b = half _ _ _ (bit_and_step a b) (omega arith)

bit_or-half : (a b : ℕ) → bit_or a b / 2 ≡ bit_or (a / 2) (b / 2)
bit_or-half a b = half _ _ _ (bit_or_step a b) (omega arith)

bit_xor-half : (a b : ℕ) → bit_xor a b / 2 ≡ bit_xor (a / 2) (b / 2)
bit_xor-half a b = half _ _ _ (bit_xor_step a b) (omega arith)

pub bit-bit_and : (k a b : ℕ) → bit k (bit_and a b) ≡ min (bit k a) (bit k b)
bit-bit_and zero a b = omega (arith, bit_and_step a b)
bit-bit_and (suc k) a b = simp (bit-suc, bit_and-half, bit-bit_and k (a / 2) (b / 2))

pub bit-bit_or : (k a b : ℕ) → bit k (bit_or a b) ≡ max (bit k a) (bit k b)
bit-bit_or zero a b = omega (arith, bit_or_step a b)
bit-bit_or (suc k) a b = simp (bit-suc, bit_or-half, bit-bit_or k (a / 2) (b / 2))

pub bit-bit_xor : (k a b : ℕ) → bit k (bit_xor a b) ≡ (bit k a + bit k b) % 2
bit-bit_xor zero a b = omega (arith, bit_xor_step a b)
bit-bit_xor (suc k) a b = simp (bit-suc, bit_xor-half, bit-bit_xor k (a / 2) (b / 2))

-- `a & (1 << k)` keeps digit `k` in its place.
pub bit_and_single : (k a : ℕ) → bit_and a (2 ^ k) ≡ bit k a * 2 ^ k
bit_and_single zero a = omega (arith, bit_and_step a 1, bit_and-zero (a / 2))
bit_and_single (suc k) a =
    rw (bit-suc, pow-suc) (ground (arith, bit_and_step a (2 ^ k * 2), bit_and_single k (a / 2)))

half_shift : (a b : ℕ) → a * 2 ^ suc b / 2 ≡ a * 2 ^ b
half_shift a b = omega (arith, double_pow a b)

half_fields : (w a : ℕ) → a / 2 ≡ a / 2 ^ suc w * 2 ^ w + a % 2 ^ suc w / 2
half_fields w a = omega (arith, div-add-mod' a (2 ^ suc w), double_pow (a / 2 ^ suc w) w)

half_mod : (w a : ℕ) → a % 2 ^ suc w / 2 ≡ a / 2 % 2 ^ w
half_mod w a =
    rw (half_fields w a, mul-add-mod_self_right)
      (sym (
        mod-eq_of_lt (
          omega
            (arith, pow-suc 2 w, mod-lt a {m = 2 ^ suc w} (one-le-pow (suc w) 2 (omega arith))))))

half_complement : (w a : ℕ) → a < 2 ^ suc w → (2 ^ suc w - 1 - a) / 2 ≡ 2 ^ w - 1 - a / 2
half_complement w a s = omega (arith, pow-suc 2 w)

-- Digits of what the shifts, the masks and the complement make.
pub bit-mul_above : (b k a : ℕ) → bit (k + b) (a * 2 ^ b) ≡ bit k a
bit-mul_above zero k a = rw (add-zero, mul-one) refl
bit-mul_above (suc b) k a =
    rw (add-suc, bit-suc (k + b) (a * 2 ^ suc b), half_shift a b) (bit-mul_above b k a)

pub bit-mul_below : (b k a : ℕ) → k < b → bit k (a * 2 ^ b) ≡ 0
bit-mul_below zero k a h = absurd (omega arith)
bit-mul_below (suc b) zero a h = omega (arith, double_pow a b)
bit-mul_below (suc b) (suc k) a h =
    rw (bit-suc k (a * 2 ^ suc b), half_shift a b) (bit-mul_below b k a (omega arith))

pub bit-div : (b k a : ℕ) → bit k (a / 2 ^ b) ≡ bit (k + b) a
bit-div zero k a = rw (add-zero, div-one) refl
bit-div (suc b) k a =
    rw (add-suc, bit-suc (k + b) a, pow-succ', ← div-div-eq-div-mul) (bit-div b k (a / 2))

pub bit-mod : (w k a : ℕ) → k < w → bit k (a % 2 ^ w) ≡ bit k a
bit-mod zero k a h = absurd (omega arith)
bit-mod (suc w) zero a h = omega (arith, div-add-mod' a (2 ^ suc w), double_pow (a / 2 ^ suc w) w)
bit-mod (suc w) (suc k) a h =
    rw (bit-suc k (a % 2 ^ suc w), half_mod w a, bit-suc k a) (bit-mod w k (a / 2) (omega arith))

pub bit-small : (w k a : ℕ) → w ≤ k → a < 2 ^ w → bit k a ≡ 0
bit-small zero zero a h s = ground arith
bit-small zero (suc k) a h s =
    rw (bit-suc k a) (bit-small zero k (a / 2) (omega arith) (omega arith))
bit-small (suc w) zero a h s = absurd (omega arith)
bit-small (suc w) (suc k) a h s =
    rw (bit-suc k a) (bit-small w k (a / 2) (omega arith) (omega (arith, pow-suc 2 w)))

pub bit-complement : (w k a : ℕ) → k < w → a < 2 ^ w → bit k (2 ^ w - 1 - a) ≡ 1 - bit k a
bit-complement zero k a h s = absurd (omega arith)
bit-complement (suc w) zero a h s = omega (arith, pow-suc 2 w)
bit-complement (suc w) (suc k) a h s =
    rw (bit-suc k (2 ^ suc w - 1 - a), half_complement w a s, bit-suc k a)
      (bit-complement w k (a / 2) (omega arith) (omega (arith, pow-suc 2 w)))
