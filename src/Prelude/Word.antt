-- ===== src/Prelude/Word.antt =====
-- loader/md.h: the fixed-width integers of the emulator, as native numbers. A `uint32` is a number
-- below 2^32; an `int32` is the bit pattern, read by `int32`.
use Prim.Native.Nat.{ℕ, ◌+◌, ◌-◌, ◌*◌, ◌%◌, ◌^◌, ◌<◌}
use mathlib.Core.Path.{◌≡◌}
use mathlib.Core.Option.{Option, none, some}
use native.Mathlib.Omega.{arith}
use oberon.Prelude.Tests.{ltb, if◌then◌else◌}
use oberon.Prelude.Int.{ℤ, pos, negsuc, ◌≤ℤ◌}

-- The conversions to the unsigned types.
abbrev pub uint8 : ℕ → ℕ
uint8 n = n % 2 ^ 8

abbrev pub uint16 : ℕ → ℕ
uint16 n = n % 2 ^ 16

abbrev pub uint32 : ℕ → ℕ
uint32 n = n % 2 ^ 32

-- Unsigned 32-bit arithmetic wraps.
abbrev pub add32 : ℕ → ℕ → ℕ
add32 a b = (a + b) % 2 ^ 32

abbrev pub sub32 : ℕ → ℕ → ℕ
sub32 a b = (a + 2 ^ 32 - b) % 2 ^ 32

abbrev pub mul32 : ℕ → ℕ → ℕ
mul32 a b = a * b % 2 ^ 32

-- `~w` of a 32-bit pattern.
abbrev pub not32 : ℕ → ℕ
not32 w = 2 ^ 32 - 1 - w

-- The number that a w-bit pattern stands for in two's complement.
abbrev pub int8 : ℕ → ℤ
int8 w = if ltb (w % 2 ^ 8) (2 ^ 7) then pos (w % 2 ^ 8) else negsuc (2 ^ 8 - w % 2 ^ 8 - 1)

abbrev pub int16 : ℕ → ℤ
int16 w = if ltb (w % 2 ^ 16) (2 ^ 15) then pos (w % 2 ^ 16) else negsuc (2 ^ 16 - w % 2 ^ 16 - 1)

abbrev pub int32 : ℕ → ℤ
int32 w = if ltb w (2 ^ 31) then pos w else negsuc (2 ^ 32 - w - 1)

-- The 32-bit pattern of an integer: the conversion of an `int` to `uint32`.
abbrev pub pattern32 : ℤ → ℕ
pattern32 (pos n) = n % 2 ^ 32
pattern32 (negsuc n) = 2 ^ 32 - 1 - n % 2 ^ 32

-- An `int` expression whose value does not fit an `int` is undefined.
abbrev pub checked : ℤ → Option ℤ
checked (pos n) = if ltb n (2 ^ 31) then some (pos n) else none
checked (negsuc n) = if ltb n (2 ^ 31) then some (negsuc n) else none

pub int32-pattern32 :
    (z : ℤ) → negsuc (2 ^ 31 - 1) ≤ℤ z → z ≤ℤ pos (2 ^ 31 - 1) → int32 (pattern32 z) ≡ z
int32-pattern32 z lo hi = ground arith

pub pattern32-int32 : (w : ℕ) → w < 2 ^ 32 → pattern32 (int32 w) ≡ w
pattern32-int32 w h = ground arith

pub pattern32-lt : (z : ℤ) → pattern32 z < 2 ^ 32
pattern32-lt z = ground arith
