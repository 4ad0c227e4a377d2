-- ===== src/Heap/Tags.antt =====
-- loader/heap.cpp: the tags of blocks as words. Sizes are multiples of 16, so that the four low
-- bits hold the flags.
use oberon.Prelude.{
  ℕ, zero, suc, ◌+◌, ◌-◌, ◌*◌, ◌/◌, ◌%◌, ◌^◌, ◌≤◌, ◌<◌, ◌≡◌, refl, ap, ◌∙◌, arith, bit_and, bit_or,
}
use Prim.Native.Nat.{bit_and-bitwise}
use native.Mathlib.Nat.{mul-one, div-one, div-div-eq-div-mul, pow-succ'}
use oberon.Prelude.Bits.{double_pow, bit_and_mask, bit_and_step, bit_or_step}

bit_or-zero_upto : (k x : ℕ) → x ≤ k → bit_or x 0 ≡ x
bit_or-zero_upto k zero h = refl
bit_or-zero_upto zero (suc x) h = absurd (omega arith)
bit_or-zero_upto (suc k) (suc x) h =
    omega (arith, bit_or_step (suc x) 0, bit_or-zero_upto k (suc x / 2) (omega arith))

bit_or-zero : (x y : ℕ) → y ≡ 0 → bit_or x y ≡ x
bit_or-zero x y e = rw e (bit_or-zero_upto x x (omega arith))

-- The flags below the size.
pub tag_sum : (x t : ℕ) → x % 16 ≡ 0 → t < 16 → bit_or x t ≡ x + t
tag_sum x t e h =
    let s1 = bit_or_step x t in
    let s2 = bit_or_step (x / 2) (t / 2) in
    let s3 = bit_or_step (x / 2 / 2) (t / 2 / 2) in
    let s4 = bit_or_step (x / 2 / 2 / 2) (t / 2 / 2 / 2) in
    omega (arith, s1, s2, s3, s4, bit_or-zero (x / 2 / 2 / 2 / 2) (t / 2 / 2 / 2 / 2) (omega arith))

-- The size, and each flag.
module _ (x t : ℕ) (e : x % 16 ≡ 0) (h : t < 16) where
  pub tag_low : bit_and (x + t) 15 ≡ t
  tag_low = omega (arith, bit_and_mask 4 (x + t))

pub tag_high : (x : ℕ) → x < 2 ^ 32 → bit_and x (2 ^ 32 - 16) ≡ x - x % 16
tag_high x h =
    let s1 = bit_and_step x (2 ^ 32 - 16) in
    let s2 = bit_and_step (x / 2) (2 ^ 31 - 8) in
    let s3 = bit_and_step (x / 2 / 2) (2 ^ 30 - 4) in
    let s4 = bit_and_step (x / 2 / 2 / 2) (2 ^ 29 - 2) in
    omega (arith, s1, s2, s3, s4, bit_and_mask 28 (x / 2 / 2 / 2 / 2))

-- The test of a flag.
zero_and : (x : ℕ) → bit_and 0 x ≡ 0
zero_and x = simp bit_and-bitwise (omega arith)

pub syst_flag : (x : ℕ) → bit_and 2 x ≡ x / 2 % 2 * 2
syst_flag x = omega (arith, bit_and_step 2 x, bit_and_step 1 (x / 2), zero_and (x / 2 / 2))

pub free_flag : (x : ℕ) → bit_and 4 x ≡ x / 4 % 2 * 4
free_flag x = omega (
  arith,
  bit_and_step 4 x,
  bit_and_step 2 (x / 2),
  bit_and_step 1 (x / 2 / 2),
  zero_and (x / 2 / 2 / 2),
)

pub aray_flag : (x : ℕ) → bit_and 8 x ≡ x / 8 % 2 * 8
aray_flag x = omega (arith, bit_and_step 8 x, free_flag (x / 2))

double_mask : (w k : ℕ) → (2 ^ w - 1) * 2 ^ suc k ≡ 2 * ((2 ^ w - 1) * 2 ^ k)
double_mask w k = double_pow (2 ^ w - 1) k

-- `w` ones above `k` zeros as a mask.
pub bit_and_high : (w k x : ℕ) → bit_and x ((2 ^ w - 1) * 2 ^ k) ≡ x / 2 ^ k % 2 ^ w * 2 ^ k
bit_and_high w zero x = simp (mul-one, div-one) (bit_and_mask w x)
bit_and_high w (suc k) x = omega (
  arith,
  ap (λ (y : ℕ). bit_and (x / 2) y) half ∙ bit_and_high w k (x / 2),
  bit_and_step x ((2 ^ w - 1) * 2 ^ suc k),
  even,
  ap (λ (y : ℕ). y % 2 ^ w * 2 ^ suc k) shifted,
  double_pow (x / 2 / 2 ^ k % 2 ^ w) k,
)
  where
    half : (2 ^ w - 1) * 2 ^ suc k / 2 ≡ (2 ^ w - 1) * 2 ^ k
    half = omega (arith, double_mask w k)

    even : (2 ^ w - 1) * 2 ^ suc k % 2 ≡ 0
    even = omega (arith, double_mask w k)

    shifted : x / 2 ^ suc k ≡ x / 2 / 2 ^ k
    shifted = rw (pow-succ', ← div-div-eq-div-mul) refl
