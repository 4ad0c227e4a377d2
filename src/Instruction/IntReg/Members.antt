-- ===== src/Instruction/IntReg/Members.antt =====
-- loader/skl_int_reg.cpp: the set of the elements from one bound to another.

use oberon.Prelude.{
  ◌&&◌, ℕ, ◌+◌, ◌-◌, ◌*◌, ◌%◌, ◌^◌, ◌≤◌, ◌<◌, ◌≡◌, ◌⊎◌, ◌∙◌, inl, inr, refl, subst, arith,
}
use native.Mathlib.Nat.{one-le-pow, zero-div}
use oberon.Prelude.Bits.{bit_and_mask}
use oberon.Prelude.Digits.{bit, bit-mul_above, bit-mul_below, bit-mod, bit-small, bit-complement}
use oberon.Prelude.Tests.{bool_to_nat, leb}
use oberon.Prelude.Word.{add32}
use oberon.Machine.State.{Machine, returns}
use oberon.Machine.Register.{with_pc, with_integer}
use oberon.Instruction.IntReg.{IntReg, opc_bitset, bitset, interpret_int_reg}

minus_plus : (i b : ℕ) → b ≤ i → i - b + b ≡ i
minus_plus i b h = omega arith

minus_zero : (i : ℕ) → i - 0 ≡ i
minus_zero i = omega arith

-- Digits of n ones.
ones_below : (n k : ℕ) → k < n → bit k (2 ^ n - 1) ≡ 1
ones_below n k h =
    subst (λ t. bit k t ≡ 1) (minus_zero (2 ^ n - 1))
      (bit-complement n k 0 h (ground (arith, one-le-pow n 2)) ∙ rw (zero-div (2 ^ k)) refl)

ones_above : (n k : ℕ) → n ≤ k → bit k (2 ^ n - 1) ≡ 0
ones_above n k h = bit-small n k (2 ^ n - 1) h (ground (arith, one-le-pow n 2))

place : (lo hi i : ℕ) → ((lo ≤ i) × (i ≤ hi)) ⊎ ((i < lo) ⊎ (hi < i))
place lo hi i = ground arith

module _ (lo hi i : ℕ) (ordered : lo ≤ hi) (small : i < 32) where
  abbrev n : ℕ
  n = hi - lo + 1

  truncated : bit i (bitset lo hi) ≡ bit i ((2 ^ n - 1) * 2 ^ lo)
  unfolding bitset
  truncated = bit-mod 32 i ((2 ^ n - 1) * 2 ^ lo) small

  moved : lo ≤ i → bit i ((2 ^ n - 1) * 2 ^ lo) ≡ bit (i - lo) (2 ^ n - 1)
  moved above =
      subst (λ t. bit t ((2 ^ n - 1) * 2 ^ lo) ≡ bit (i - lo) (2 ^ n - 1)) (minus_plus i lo above)
        (bit-mul_above lo (i - lo) (2 ^ n - 1))

  member : lo ≤ i → i ≤ hi → bit i (bitset lo hi) ≡ 1
  member above below = truncated ∙ (moved above ∙ ones_below n (i - lo) (omega arith))

  not_member : ((i < lo) ⊎ (hi < i)) → bit i (bitset lo hi) ≡ 0
  not_member (inl below) = truncated ∙ bit-mul_below lo i (2 ^ n - 1) below
  not_member (inr above) = truncated ∙ (moved (omega arith) ∙ ones_above n (i - lo) (omega arith))

  digit : bit i (bitset lo hi) ≡ bool_to_nat (leb lo i && leb i hi)
  digit = elim (place lo hi i) [
    | inl (above, below) ↦ member above below ∙ ground arith
    | inr outside ↦ not_member outside ∙ ground arith
  ]

-- The instruction that makes a set of the bounds in two registers.
abbrev pub set_of : (rd r0 r1 : ℕ) → IntReg
set_of rd r0 r1 = record { opc = opc_bitset; rd = rd; r0 = r0; r1 = r1 }

module _ (rd r0 r1 i : ℕ) (m : Machine) (small : i < 32) where
  abbrev pub lo : ℕ
  lo = m.cpu.r r0 % 32

  abbrev pub hi : ℕ
  hi = m.cpu.r r1 % 32

  -- Where the low five bits of two registers are in order, the instruction that makes a set stores
  -- the word whose digits are 1 from the first bound to the second and 0 elsewhere, and advances.
  pub set_members :
      lo ≤ hi
      → (interpret_int_reg (set_of rd r0 r1) m
          ≡ returns tt (with_pc (add32 m.cpu.pc 4) (with_integer rd (bitset lo hi) m)))
        × (bit i (bitset lo hi) ≡ bool_to_nat (leb lo i && leb i hi))
  unfolding interpret_int_reg
  set_members ordered = (
    rw (bit_and_mask 5 (m.cpu.r r0), bit_and_mask 5 (m.cpu.r r1)) (ground arith),
    digit lo hi i ordered small,
  )
