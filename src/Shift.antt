-- ===== src/Shift.antt =====
-- loader/skl.h: logical shifts and the fields of an instruction.
use oberon.Prelude.{ℕ, ◌+◌, ◌-◌, ◌*◌, ◌/◌, ◌%◌, ◌^◌, ◌<◌, ◌≡◌, ap, bit_and, arith}
use oberon.Prelude.Bits.{bit_and_mask}
use oberon.Prelude.Word.{uint32}
use native.Mathlib.Nat.{mod-lt, one-le-pow}

-- No more than five bits of the count are used.
unfoldable pub mask_shift_bits : ℕ → ℕ
mask_shift_bits b = bit_and b 31

unfoldable pub left_shift : ℕ → ℕ → ℕ
unfolding mask_shift_bits
left_shift v bits = uint32 (v * 2 ^ mask_shift_bits bits)

unfoldable pub right_shift : ℕ → ℕ → ℕ
unfolding mask_shift_bits
right_shift v bits = v / 2 ^ mask_shift_bits bits

-- Bits `hi` down to `lo` of an instruction.
unfoldable pub field : ℕ → ℕ → ℕ → ℕ
field inst hi lo = let r = inst / 2 ^ lo in let mask = 2 ^ (hi - lo + 1) - 1 in bit_and r mask

pub mask_shift_bits_lem : (b : ℕ) → mask_shift_bits b ≡ b % 32
unfolding mask_shift_bits
mask_shift_bits_lem b = bit_and_mask 5 b

pub left_shift_lem : (v b : ℕ) → left_shift v b ≡ v * 2 ^ (b % 32) % 2 ^ 32
unfolding left_shift
left_shift_lem v b = ap (λ (k : ℕ). v * 2 ^ k % 2 ^ 32) (mask_shift_bits_lem b)

pub right_shift_lem : (v b : ℕ) → right_shift v b ≡ v / 2 ^ (b % 32)
unfolding right_shift
right_shift_lem v b = ap (λ (k : ℕ). v / 2 ^ k) (mask_shift_bits_lem b)

pub field_lem : (inst hi lo : ℕ) → field inst hi lo ≡ inst / 2 ^ lo % 2 ^ (hi - lo + 1)
unfolding field
field_lem inst hi lo = bit_and_mask (hi - lo + 1) (inst / 2 ^ lo)

-- A field of w bits is below 2^w.
pub field-lt : (inst hi lo : ℕ) → field inst hi lo < 2 ^ (hi - lo + 1)
field-lt inst hi lo = rw field_lem (mod-lt _ (one-le-pow (hi - lo + 1) 2 (omega arith)))
