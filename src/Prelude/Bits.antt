-- ===== src/Prelude/Bits.antt =====
-- The native bit operations at variables: one equation for the lowest digit, and x mask of low
-- ones as x remainder.
use Prim.Native.Nat.{
  ℕ, zero, suc, ◌+◌, ◌-◌, ◌*◌, ◌/◌, ◌%◌, ◌^◌, ◌≤◌, ◌<◌, min, max, bit_and, bit_or, bit_xor, digits,
  differ, bitwise, bit_and-bitwise, bit_or-bitwise, bit_xor-bitwise,
}
use mathlib.Core.Path.{◌≡◌, refl, ap}
use native.Mathlib.Nat.{le_refl, pow-suc, one-le-pow}
use native.Mathlib.Omega.{arith}

-- `rest` is what follows once the first number has run out, and `digit` combines two digits.
module _ (rest : ℕ → ℕ) (digit : ℕ → ℕ → ℕ) where
  -- Any two budgets that cover the first number give the same digits.
  budget : (c d x y : ℕ) → x ≤ c → x ≤ d → digits rest digit c x y ≡ digits rest digit d x y
  budget zero zero zero y hc hd = refl
  budget zero (suc d) zero y hc hd = refl
  budget (suc c) zero zero y hc hd = refl
  budget (suc c) (suc d) zero y hc hd = refl
  budget zero d (suc x) y hc hd = absurd (omega arith)
  budget (suc c) zero (suc x) y hc hd = absurd (omega arith)
  budget (suc c) (suc d) (suc x) y hc hd =
      let tail = budget c d (suc x / 2) (y / 2) (omega arith) (omega arith) in
      ap (λ (t : ℕ). t * 2 + digit (suc x % 2) (y % 2)) tail

  peel :
      (x y : ℕ)
      → bitwise rest digit (suc x) y
        ≡ bitwise rest digit (suc x / 2) (y / 2) * 2 + digit (suc x % 2) (y % 2)
  peel x y =
      let tail = budget x (suc x / 2) (suc x / 2) (y / 2) (omega arith) (le_refl _) in
      ap (λ (t : ℕ). t * 2 + digit (suc x % 2) (y % 2)) tail

pub bit_and_step : (x y : ℕ) → bit_and x y ≡ bit_and (x / 2) (y / 2) * 2 + min (x % 2) (y % 2)
bit_and_step zero y = simp bit_and-bitwise (omega arith)
bit_and_step (suc x) y = simp bit_and-bitwise (peel (λ y. 0) min x y)

pub bit_or_step : (x y : ℕ) → bit_or x y ≡ bit_or (x / 2) (y / 2) * 2 + max (x % 2) (y % 2)
bit_or_step zero y = simp bit_or-bitwise (omega arith)
bit_or_step (suc x) y = simp bit_or-bitwise (peel (λ y. y) max x y)

differ_digits : (x y : ℕ) → x < 2 → y < 2 → differ x y ≡ (x + y) % 2
differ_digits zero zero p q = refl
differ_digits zero (suc zero) p q = refl
differ_digits zero (suc (suc y)) p q = absurd (omega arith)
differ_digits (suc zero) zero p q = refl
differ_digits (suc zero) (suc zero) p q = refl
differ_digits (suc zero) (suc (suc y)) p q = absurd (omega arith)
differ_digits (suc (suc x)) y p q = absurd (omega arith)

pub bit_xor_step : (x y : ℕ) → bit_xor x y ≡ bit_xor (x / 2) (y / 2) * 2 + (x % 2 + y % 2) % 2
bit_xor_step zero y =
    simp bit_xor-bitwise (omega (arith, differ_digits 0 (y % 2) (omega arith) (omega arith)))
bit_xor_step (suc x) y = simp bit_xor-bitwise (
    omega (
      arith,
      peel (λ y. y) differ x y,
      differ_digits (suc x % 2) (y % 2) (omega arith) (omega arith),
    ))

bit_and-zero_upto : (k x : ℕ) → x ≤ k → bit_and x 0 ≡ 0
bit_and-zero_upto k zero h = refl
bit_and-zero_upto zero (suc x) h = absurd (omega arith)
bit_and-zero_upto (suc k) (suc x) h =
    omega (arith, bit_and_step (suc x) 0, bit_and-zero_upto k (suc x / 2) (omega arith))

pub bit_and-zero : (x : ℕ) → bit_and x 0 ≡ 0
bit_and-zero x = bit_and-zero_upto x x (le_refl _)

pub double_pow : (q k : ℕ) → q * 2 ^ suc k ≡ 2 * (q * 2 ^ k)
double_pow q k = omega (arith, ap (λ (t : ℕ). q * t) (pow-suc 2 k))

low_field : (k high low : ℕ) → low < 2 ^ k → bit_and (high * 2 ^ k + low) (2 ^ k - 1) ≡ low
low_field zero high low below = rw bit_and-zero (omega arith)
low_field (suc k) high low below = ground (
  arith,
  bit_and_step (high * 2 ^ suc k + low) (2 ^ suc k - 1),
  double_pow high k,
  pow-suc 2 k,
  low_field k high (low / 2) (omega arith),
)

-- `x & (2^k - 1)` is the remainder by `2^k`, at every width.
pub bit_and_mask : (k x : ℕ) → bit_and x (2 ^ k - 1) ≡ x % 2 ^ k
bit_and_mask k x = ground (arith, one-le-pow k 2, low_field k (x / 2 ^ k) (x % 2 ^ k))
