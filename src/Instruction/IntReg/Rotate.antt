-- ===== src/Instruction/IntReg/Rotate.antt =====
-- loader/skl_int_reg.cpp: which digit of the operand a rotated digit is.
use Prim.Native.Nat.{max}
use oberon.Prelude.{
  ◌∙◌, subst, ℕ, ◌+◌, ◌-◌, ◌*◌, ◌%◌, ◌^◌, ◌≤◌, ◌<◌, ◌≡◌, ◌⊎◌, inl, inr, refl, arith, true, false,
}
use native.Mathlib.Nat.{mul-one, div-one}
use oberon.Prelude.Digits.{
  bit, bit-bit_or, bit-mul_above, bit-mul_below, bit-mod, bit-div, bit-small,
}
use oberon.Shift.{left_shift, right_shift, left_shift_lem, right_shift_lem}
use oberon.Instruction.IntReg.{rotate}

low : (b : ℕ) → b < 32 → b % 32 ≡ b
low b h = omega arith

minus_plus : (i b : ℕ) → b ≤ i → i - b + b ≡ i
minus_plus i b h = omega arith

cases : (b i : ℕ) → (b ≡ 0) ⊎ (((0 < b) × (i < b)) ⊎ ((0 < b) × (b ≤ i)))
cases b i = ground arith

-- The places of the digits.
wrap_whole : (b i : ℕ) → b ≡ 0 → i < 32 → (i + (32 - b)) % 32 ≡ i
wrap_whole b i e h = omega arith

wrap_zero : (b i : ℕ) → b ≡ 0 → i < 32 → (i + b) % 32 ≡ i
wrap_zero b i e h = omega arith

wrap_above : (b i : ℕ) → b ≤ i → i < 32 → b < 32 → (i + (32 - b)) % 32 ≡ i - b
wrap_above b i lo hi h = omega arith

wrap_over : (b i : ℕ) → b < 32 → i < 32 → 31 - i < b → (i + b) % 32 ≡ i - (32 - b)
wrap_over b i hb hi h = omega arith

module _ (l : ℕ) (small : l < 2 ^ 32) where
  -- Digits of a shift by `b` places, 0 < b < 32.
  left_above : (b i : ℕ) → b < 32 → b ≤ i → i < 32 → bit i (left_shift l b) ≡ bit (i - b) l
  left_above b i hb lo hi =
      rw (left_shift_lem l b, low b hb, bit-mod 32 i (l * 2 ^ b) hi)
        (subst (λ t. bit t (l * 2 ^ b) ≡ bit (i - b) l) (minus_plus i b lo)
          (bit-mul_above b (i - b) l))

  left_below : (b i : ℕ) → b < 32 → i < b → bit i (left_shift l b) ≡ 0
  left_below b i hb lo =
      rw
        (
          left_shift_lem l b,
          low b hb,
          bit-mod 32 i (l * 2 ^ b) (omega arith),
          bit-mul_below b i l lo,
        )
        refl

  right : (b i : ℕ) → b < 32 → bit i (right_shift l b) ≡ bit (i + b) l
  right b i hb = rw (right_shift_lem l b, low b hb) (bit-div b i l)

  right_above : (b i : ℕ) → b < 32 → 32 ≤ i + b → bit i (right_shift l b) ≡ 0
  right_above b i hb hi = right b i hb ∙ bit-small 32 (i + b) l hi small

  -- A shift by 0 or by 32 places does nothing.
  left_whole : (b i : ℕ) → b % 32 ≡ 0 → i < 32 → bit i (left_shift l b) ≡ bit i l
  left_whole b i e hi = rw (left_shift_lem l b, e, mul-one, bit-mod 32 i l hi) refl

  right_whole : (b i : ℕ) → b % 32 ≡ 0 → bit i (right_shift l b) ≡ bit i l
  right_whole b i e = rw (right_shift_lem l b, e, div-one) refl

  rotated_left :
      (b i : ℕ)
      → b < 32
      → i < 32
      → max (bit i (left_shift l b)) (bit i (right_shift l (32 - b))) ≡ bit ((i + (32 - b)) % 32) l
  rotated_left b i hb hi = elim (cases b i) [
    | inl e ↦
        rw
          (
            left_whole b i (omega arith) hi,
            right_whole (32 - b) i (omega arith),
            wrap_whole b i e hi,
          )
          (omega arith)
    | inr (inl (pos, lo)) ↦
        rw (left_below b i hb lo, right (32 - b) i (omega arith), low (i + (32 - b)) (omega arith))
          (omega arith)
    | inr (inr (pos, lo)) ↦
        rw
          (
            left_above b i hb lo hi,
            right_above (32 - b) i (omega arith) (omega arith),
            wrap_above b i lo hi hb,
          )
          (omega arith)
  ]

  rotated_right :
      (b i : ℕ)
      → b < 32
      → i < 32
      → max (bit i (right_shift l b)) (bit i (left_shift l (32 - b))) ≡ bit ((i + b) % 32) l
  rotated_right b i hb hi = elim (cases b (31 - i)) [
    | inl e ↦
        rw
          (
            right_whole b i (omega arith),
            left_whole (32 - b) i (omega arith) hi,
            wrap_zero b i e hi,
          )
          (omega arith)
    | inr (inl (pos, lo)) ↦
        rw
          (
            right_above b i hb (omega arith),
            left_above (32 - b) i (omega arith) (omega arith) hi,
            wrap_over b i hb hi (omega arith),
          )
          (omega arith)
    | inr (inr (pos, lo)) ↦
        rw
          (
            right b i hb,
            left_below (32 - b) i (omega arith) (omega arith),
            low (i + b) (omega arith),
          )
          (omega arith)
  ]

  -- Each digit of a 32-bit value rotated by fewer than 32 places is the digit that many places
  -- below it or above it, counted round the word.
  pub bit-rotate :
      (b i : ℕ)
      → b < 32
      → i < 32
      → (bit i (rotate true l b) ≡ bit ((i + (32 - b)) % 32) l)
        × (bit i (rotate false l b) ≡ bit ((i + b) % 32) l)
  unfolding rotate
  bit-rotate b i hb hi = (
    bit-bit_or i (left_shift l b) (right_shift l (32 - b)) ∙ rotated_left b i hb hi,
    bit-bit_or i (right_shift l b) (left_shift l (32 - b)) ∙ rotated_right b i hb hi,
  )
