-- ===== src/Instruction/IntReg/Power.antt =====
-- loader/skl_int_reg.cpp: ASH and LSH as products and quotients of powers of two.

use oberon.Prelude.{ℕ, ◌-◌, ◌*◌, ◌/◌, ◌%◌, ◌^◌, ◌<◌, ◌≡◌, ◌∙◌, refl, arith, true, false}
use native.Mathlib.Nat.{one-le-pow, div-add-mod', mod-lt}
use oberon.Prelude.Bits.{bit_and_mask}
use oberon.Prelude.Int.{ℤ, pos, negsuc, neg_part, ◌*ℤ◌, ◌+ℤ◌}
use oberon.Prelude.Word.{int8, int32, pattern32}
use oberon.Shift.{left_shift_lem}
use oberon.Instruction.IntReg.{ash, lsh, is_left, arithmetic_shift}

-- Quotient `q` of `z` by a power of two, rounded down.
abbrev pub IsQuotient : ℤ → ℕ → ℤ → Type 0
IsQuotient z p q = (r : ℕ) × (z ≡ q *ℤ pos p +ℤ pos r) × (r < p)

IsQuotient-pos : (n p : ℕ) → 0 < p → IsQuotient (pos n) p (pos (n / p))
unfolding ◌*ℤ◌ ◌+ℤ◌
IsQuotient-pos n p h = (n % p, ground (arith, div-add-mod' n p), mod-lt n h)

IsQuotient-neg : (n p : ℕ) → 0 < p → IsQuotient (negsuc n) p (negsuc (n / p))
unfolding ◌*ℤ◌ ◌+ℤ◌
IsQuotient-neg n p h =
    (p - 1 - n % p, ground (arith, div-add-mod' n p, mod-lt n h), omega (arith, mod-lt n h))

shift-IsQuotient : (z : ℤ) (k : ℕ) → IsQuotient z (2 ^ k) (arithmetic_shift z k)
shift-IsQuotient (pos n) k = IsQuotient-pos n (2 ^ k) (one-le-pow k 2 (omega arith))
shift-IsQuotient (negsuc n) k = IsQuotient-neg n (2 ^ k) (one-le-pow k 2 (omega arith))

-- The count -k.
abbrev pub minus : ℕ → ℕ
minus k = 2 ^ 32 - k

module _ (l k : ℕ) (small : k < 32) where
  leftwards : is_left k ≡ true
  leftwards = ground arith

  low : k % 32 ≡ k
  low = omega arith

  -- For a count from 0 to 31, ASH and LSH both multiply by the power of two and wrap round.
  pub shift_up : (ash l k ≡ l * 2 ^ k % 2 ^ 32) × (lsh l k ≡ l * 2 ^ k % 2 ^ 32)
  unfolding ash lsh
  shift_up = (
    rw leftwards (left_shift_lem l k ∙ rw low refl),
    rw leftwards (left_shift_lem l k ∙ rw low refl),
  )

  rightwards : 0 < k → is_left (minus k) ≡ false
  rightwards positive = ground arith

  count : 0 < k → neg_part (int8 (minus k)) ≡ k
  count positive = ground arith

  -- For a count from -31 to -1, ASH is the quotient by the power of two that rounds down, of the
  -- operand as a signed number, and LSH that of the operand as an unsigned number.
  pub shift_down :
      0 < k
      → (q : ℤ) × (ash l (minus k) ≡ pattern32 q)
        × IsQuotient (int32 l) (2 ^ k) q
        × (lsh l (minus k) ≡ l / 2 ^ k)
  unfolding ash lsh
  shift_down positive = (
    arithmetic_shift (int32 l) k,
    rw (rightwards positive, count positive) (rw (bit_and_mask 5 k, low) refl),
    shift-IsQuotient (int32 l) k,
    rw (rightwards positive, count positive) (rw (bit_and_mask 5 k, low) refl),
  )
