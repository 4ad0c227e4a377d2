-- ===== src/Flags/Signed.antt =====
-- loader/generic/skl_flags_alu.h: the value of each synthesized flag, and the flags read back from
-- the word that holds them.
use oberon.Prelude.{ℕ, ◌+◌, ◌*◌, ◌%◌, ◌^◌, ◌<◌, ◌≡◌, Bool, bit_and, bit_or, bit_xor, arith}
use oberon.Prelude.Tests.{ltb, leb, ◌==◌, bool_to_nat}
use oberon.Prelude.Int.{ltb_ℤ}
use oberon.Prelude.Word.{sub32, int32}
use oberon.Prelude.Digits.{bit, bit_and_single, bit-bit_and, bit-bit_xor}
use Prim.Native.Nat.{min}
use oberon.Flags.{
  zf, sf, cf, of, is_set, flag, create_flags, differs, synthesize_flags_int32, synthesize_of,
  synthesize_sf, synthesize_zf, synthesize_cf,
}

-- The flag word of four flags, in the order of the emulator's expression.
abbrev pub flag_word : Bool → Bool → Bool → Bool → ℕ
flag_word z s c o =
    bit_or (bit_or (bit_or (bool_to_nat o * 2 ^ 3) (bool_to_nat c * 2 ^ 2)) (bool_to_nat s * 2 ^ 1))
      (bool_to_nat z * 2 ^ 0)

abbrev pub ReadsBack : ℕ → Bool → Bool → Bool → Bool → Type 0
ReadsBack w z s c o = (flag w zf ≡ z) × (flag w sf ≡ s) × (flag w cf ≡ c) × (flag w of ≡ o)

pub flag-flag_word : (z s c o : Bool) → ReadsBack (flag_word z s c o) z s c o
unfolding flag
flag-flag_word z s c o = ground arith

pub flag-create_flags : (z s c o : Bool) → ReadsBack (create_flags z s c o) z s c o
unfolding flag create_flags
flag-create_flags z s c o = ground arith

-- The sign bit of a 32-bit pattern.
abbrev pub sign : ℕ → Bool
sign w = leb (2 ^ 31) w

is_set-sign : (w : ℕ) → w < 2 ^ 32 → is_set (bit_and w (2 ^ 31)) ≡ sign w
is_set-sign w h = ground (arith, bit_and_single 31 w)

synthesize_zf_lem : (l r : ℕ) → l < 2 ^ 32 → r < 2 ^ 32 → synthesize_zf l r ≡ bool_to_nat (l == r)
unfolding synthesize_zf
synthesize_zf_lem l r hl hr = ground arith

synthesize_sf_lem : (l r : ℕ) → synthesize_sf l r ≡ bool_to_nat (sign (sub32 l r))
unfolding synthesize_sf
synthesize_sf_lem l r = rw (is_set-sign (sub32 l r) (omega arith))

-- The overflow flag is set when the difference of the two integers does not fit 32 bits, which is
-- when its sign is wrong.
unfoldable pub overflow : ℕ → ℕ → Bool
overflow l r = differs (sign (sub32 l r)) (ltb_ℤ (int32 l) (int32 r))

of_digits :
    (l r d : ℕ)
    → bit 31 (bit_and (bit_xor l r) (bit_xor l d))
      ≡ min ((bit 31 l + bit 31 r) % 2) ((bit 31 l + bit 31 d) % 2)
of_digits l r d = simp (bit-bit_and 31, bit-bit_xor 31)

synthesize_of_lem :
    (l r : ℕ) → l < 2 ^ 32 → r < 2 ^ 32 → synthesize_of l r ≡ bool_to_nat (overflow l r)
unfolding synthesize_of overflow
synthesize_of_lem l r hl hr = ground (
  arith,
  bit_and_single 31 (bit_and (bit_xor l r) (bit_xor l (sub32 l r))),
  of_digits l r (sub32 l r),
)

pub synthesize_flags_int32_lem :
    (l r : ℕ)
    → l < 2 ^ 32
    → r < 2 ^ 32
    → synthesize_flags_int32 l r ≡ flag_word (l == r) (sign (sub32 l r)) (ltb l r) (overflow l r)
unfolding synthesize_flags_int32 synthesize_cf
synthesize_flags_int32_lem l r hl hr =
    rw (synthesize_zf_lem l r hl hr, synthesize_sf_lem l r, synthesize_of_lem l r hl hr)
