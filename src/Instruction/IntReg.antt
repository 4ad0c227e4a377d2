-- ===== src/Instruction/IntReg.antt =====
-- loader/skl_int_reg.cpp: logical instructions, shifts, sets and the comparison of strings.
pub mod Rotate
pub mod Members
pub mod Power
use oberon.Prelude.{
  ℕ, zero, suc, ◌+◌, ◌-◌, ◌*◌, ◌/◌, ◌%◌, ◌^◌, Bool, true, false, ◌&&◌, Option, none, some, bit_and,
  bit_or, bit_xor,
}
use oberon.Prelude.Tests.{◌==◌, ltb, leb, if◌then◌else◌}
use oberon.Prelude.Int.{ℤ, pos, negsuc, pos_part, neg_part, ltb_ℤ}
use oberon.Prelude.Word.{uint32, int8, int32, pattern32, not32}
use oberon.O3.{neg}
use oberon.Shift.{field, left_shift, right_shift}
use oberon.Flags.{create_flags}
use oberon.Machine.State.{
  M, halts, undefined, pure, halt, internal_error, defined, assert, ◌>>=◌, ◌>>◌,
}
use oberon.Machine.Register.{read_integer_register, write_integer_register, increment_pc}
use oberon.Machine.Trap.{hardware_trap, software_trap, out_of_bounds_read}
use oberon.Machine.Memory.{heap_to_host, address_valid, load1}

-- loader/skl_int_reg_opc.h.
pub data IntRegOpc : Type 0 where
  opc_and opc_ash opc_bitset opc_cmps opc_lsh opc_nor opc_or opc_rot opc_xor : IntRegOpc

-- skl_int_reg_base_t.
pub record IntReg : Type 0 where
  pub opc : IntRegOpc
  pub rd : ℕ
  pub r0 : ℕ
  pub r1 : ℕ

-- `>>` of an `int32`, which copies the sign.
abbrev pub arithmetic_shift : ℤ → ℕ → ℤ
arithmetic_shift (pos n) k = pos (n / 2 ^ k)
arithmetic_shift (negsuc n) k = negsuc (n / 2 ^ k)

-- The lowest byte of the count, as a signed number, tells the direction.
abbrev pub is_left : ℕ → Bool
is_left r = if ltb_ℤ (int8 r) (pos 0) then false else true

unfoldable pub ash : ℕ → ℕ → ℕ
unfolding left_shift
ash l r =
    if is_left r
    then left_shift l r
    else pattern32 (arithmetic_shift (int32 l) (bit_and (neg_part (int8 r)) 31))

unfoldable pub lsh : ℕ → ℕ → ℕ
unfolding left_shift right_shift
lsh l r = if is_left r then left_shift l r else right_shift l (neg_part (int8 r))

-- `abs` of an `int`.
abbrev pub magnitude : ℤ → Option ℤ
magnitude a = if ltb_ℤ a (pos 0) then neg a else some a

unfoldable pub rotate : Bool → ℕ → ℕ → ℕ
unfolding left_shift right_shift
rotate rotate_left l bits =
    let n_bits : ℕ = 32 in
    if rotate_left
    then bit_or (left_shift l bits) (right_shift l (n_bits - bits))
    else bit_or (right_shift l bits) (left_shift l (n_bits - bits))

unfoldable pub rot : ℕ → ℕ → M ℕ
unfolding rotate
rot l r = do
  let rotate_left = if ltb_ℤ (int32 r) (pos 0) then false else true
  a ← defined (magnitude (int32 r))
  let bits = pos_part a % 32
  pure (rotate rotate_left l bits)

-- md::MaxSet.
abbrev pub max_set : ℕ
max_set = 31

-- The bits from `l` up to `r`, computed in 64 bits.
unfoldable pub bitset : ℕ → ℕ → ℕ
bitset l r = uint32 ((2 ^ (r - l + 1) - 1) * 2 ^ l)

-- `strlen` of the bytes at `p`, of which `n` lie in the block; past it the read is undefined.
unfoldable pub strlen : (ℕ → ℕ) → ℕ → ℕ → Option ℕ
strlen bytes p zero = none
strlen bytes p (suc n) =
    let rest = strlen bytes (p + 1) n in
    if load1 bytes p == 0 then some 0 else elim rest [ none ↦ none | some k ↦ some (suc k) ]

-- The sign of `strcmp` on the first `n` bytes.
pub data Compared : Type 0 where
  less equal greater : Compared

unfoldable pub strcmp : (ℕ → ℕ) → ℕ → ℕ → ℕ → Compared
strcmp bytes p q zero = equal
strcmp bytes p q (suc n) =
    let rest = strcmp bytes (p + 1) (q + 1) n in
    let a = load1 bytes p in
    let b = load1 bytes q in
    if ltb a b then less else if ltb b a then greater else if a == 0 then equal else rest

-- zf, sf, cf and of of the result of `strcmp`.
unfoldable pub compared_flags : Compared → ℕ
unfolding create_flags
compared_flags equal = create_flags true false false false
compared_flags greater = create_flags false false false false
compared_flags less = create_flags false true false false

-- The string at a host address.
abbrev pub length_at : Option ℕ → M ℕ
length_at none m = halts undefined
length_at (some p) m =
    if leb m.block.base p
    then defined (strlen m.bytes p (m.block.base + m.block.size - p)) m
    else halts undefined

unfoldable pub cmps : IntReg → ℕ → ℕ → M (Unit {0})
unfolding strlen strcmp compared_flags
cmps i l r = do
  llen ← length_at (heap_to_host l)
  rlen ← length_at (heap_to_host r)
  λ m.
      if address_valid m.memory l (llen + 1) && address_valid m.memory r (rlen + 1)
      then (do
        write_integer_register i.rd (compared_flags (strcmp m.bytes l r (llen + 1)))
        increment_pc 1)
          m
      else hardware_trap out_of_bounds_read m

abbrev pub store_and_step : IntReg → ℕ → M (Unit {0})
store_and_step i v = do write_integer_register i.rd v; increment_pc 1

unfoldable pub int_reg_body : IntRegOpc → IntReg → ℕ → ℕ → M (Unit {0})
unfolding ash lsh rot bitset cmps
int_reg_body opc_and i l r = store_and_step i (bit_and l r)
int_reg_body opc_ash i l r = store_and_step i (ash l r)
int_reg_body opc_bitset i l r =
    let lo = bit_and l max_set in
    let hi = bit_and r max_set in
    if leb lo hi then store_and_step i (bitset lo hi) else software_trap 12
int_reg_body opc_cmps i l r = cmps i l r
int_reg_body opc_lsh i l r = store_and_step i (lsh l r)
int_reg_body opc_nor i l r = store_and_step i (not32 (bit_or l r))
int_reg_body opc_or i l r = store_and_step i (bit_or l r)
int_reg_body opc_rot i l r = do v ← rot l r; store_and_step i v
int_reg_body opc_xor i l r = store_and_step i (bit_xor l r)

unfoldable pub interpret_int_reg : IntReg → M (Unit {0})
unfolding int_reg_body
interpret_int_reg i = do
  l ← read_integer_register i.r0
  r ← read_integer_register i.r1
  int_reg_body i.opc i l r

abbrev pub int_reg_opc : ℕ → Option IntRegOpc
int_reg_opc n =
    if n == 0
    then some opc_and
    else if n == 1
    then some opc_ash
    else if n == 2
    then some opc_bitset
    else if n == 3
    then some opc_cmps
    else if n == 4
    then some opc_lsh
    else if n == 5
    then some opc_nor
    else if n == 6
    then some opc_or
    else if n == 7
    then some opc_rot
    else if n == 8
    then some opc_xor
    else none

-- `assert(opc < N_OPCODES)` stands before the switch.
unfoldable pub op_int_reg : ℕ → M IntReg
unfolding field
op_int_reg inst = elim (int_reg_opc (field inst 4 0)) [
  | none ↦ assert (ltb (field inst 4 0) 9) >> halt internal_error
  | some opc ↦
      pure
        (record { opc = opc; rd = field inst 25 21; r0 = field inst 20 16; r1 = field inst 15 11 })
]
