-- ===== src/Ieee.antt =====
-- The floating point of the host processor and of the C library, which the emulator uses and does
-- not implement: operations on the 64-bit patterns of `double` and the 32-bit patterns of `float`.
use oberon.Prelude.{ℕ, ◌+◌, ◌*◌, ◌/◌, ◌%◌, ◌^◌, Bool, ◌&&◌, ◌||◌, not, Option}
use oberon.Prelude.Tests.{bool_to_nat}
use oberon.Prelude.Int.{ℤ}
use oberon.Prelude.{bit_or}

pub record Ieee : Type 0 where
  pub add : ℕ → ℕ → ℕ
  pub sub : ℕ → ℕ → ℕ
  pub mul : ℕ → ℕ → ℕ
  pub div : ℕ → ℕ → ℕ
  pub fabs : ℕ → ℕ
  pub lt : ℕ → ℕ → Bool
  pub eq : ℕ → ℕ → Bool
  -- The conversions. That of a `double` to `uint32` is undefined outside the range.
  pub of_int32 : ℤ → ℕ
  pub of_uint32 : ℕ → ℕ
  pub to_uint32 : ℕ → Option ℕ
  pub of_float : ℕ → ℕ
  pub to_float : ℕ → ℕ
  -- <math.h>.
  pub atan : ℕ → ℕ
  pub cos : ℕ → ℕ
  pub exp : ℕ → ℕ
  pub log : ℕ → ℕ
  pub sin : ℕ → ℕ
  pub sqrt : ℕ → ℕ
  pub tan : ℕ → ℕ

-- loader/md.h: a `double` as two words, little-endian.
abbrev pub decompose_lo : ℕ → ℕ
decompose_lo d = d % 2 ^ 32

abbrev pub decompose_hi : ℕ → ℕ
decompose_hi d = d / 2 ^ 32

abbrev pub recompose_double : ℕ → ℕ → ℕ
recompose_double lo hi = lo + hi * 2 ^ 32

-- loader/md.cpp. Both words are the high word of the pattern.
abbrev pub min_lreal_pat_h : ℕ
min_lreal_pat_h = 0xffefffff

abbrev pub max_lreal_pat_h : ℕ
max_lreal_pat_h = 0x7fefffff

abbrev pub min_lreal : ℕ
min_lreal = recompose_double min_lreal_pat_h min_lreal_pat_h

abbrev pub max_lreal : ℕ
max_lreal = recompose_double max_lreal_pat_h max_lreal_pat_h

-- loader/generic/skl_flags_alu.h: the flags of a comparison of doubles.
module _ (fp : Ieee) where
  open fp use {add, sub, lt, eq}

  abbrev pub le : ℕ → ℕ → Bool
  le a b = lt a b || eq a b

  unfoldable pub synthesize_overflow_double : ℕ → ℕ → ℕ
  synthesize_overflow_double l r =
      let t0 = le 0 r && le (add min_lreal r) l in
      let t1 = lt r 0 && le l (add max_lreal r) in bool_to_nat (not t0 && not t1)

  unfoldable pub synthesize_flags_double : ℕ → ℕ → ℕ
  unfolding synthesize_overflow_double
  synthesize_flags_double l r =
      let delta = sub l r in
      let z = bool_to_nat (eq delta 0) in
      let s = bool_to_nat (lt delta 0) in
      let c = bool_to_nat (lt l r) in
      let o = synthesize_overflow_double l r in
      bit_or (bit_or (bit_or (z * 2 ^ 0) (s * 2 ^ 1)) (c * 2 ^ 2)) (o * 2 ^ 3)
