-- ===== src/Instruction/RegMem.antt =====
-- loader/skl_reg_mem.cpp: loads, stores and address computation. The operand word is read once,
-- when the instruction is decoded.
pub mod LoadStored
use oberon.Prelude.{ℕ, ◌+◌, ◌*◌, ◌^◌, Bool, true, false, none, some}
use oberon.Prelude.Tests.{◌==◌, if◌then◌else◌}
use oberon.Prelude.Word.{uint8, uint16, uint32, add32}
use oberon.Ieee.{Ieee, decompose_lo, decompose_hi, recompose_double}
use oberon.Shift.{field}
use oberon.Machine.State.{M, pure, halt, not_implemented, ◌>>=◌, ◌>>◌}
use oberon.Machine.Register.{
  read_integer_register, write_integer_register, read_real_register, write_real_register,
  increment_pc, exception_raised,
}
use oberon.Machine.Trap.{hardware_trap, out_of_bounds_read, out_of_bounds_write}
use oberon.Machine.Memory.{
  read, address_valid, heap_to_host, read_1_se, read_1_ze, read_2_se, read_2_ze, read_4_ze, write_1,
  write_2, write_4, Haddr,
}

unfoldable pub compute_effective_address : ℕ → ℕ → ℕ → ℕ → ℕ
compute_effective_address base index scale offset =
    add32 (add32 base (uint32 (index * 2 ^ scale))) offset

-- The host address `p + n`.
abbrev pub offset_host : Haddr → ℕ → Haddr
offset_host none n = none
offset_host (some p) n = some (p + n)

-- The four accessors of floating point values, on patterns of 32 and 64 bits.
unfoldable pub read_little_endian_float : ℕ → M ℕ
read_little_endian_float addr m =
    if address_valid m.memory addr 4
    then read_4_ze (heap_to_host addr) m
    else (hardware_trap out_of_bounds_read >> pure 0) m

unfoldable pub read_little_endian_double : ℕ → M ℕ
read_little_endian_double addr m =
    if address_valid m.memory addr 8
    then (do
      lo ← read_4_ze (heap_to_host addr)
      hi ← read_4_ze (offset_host (heap_to_host addr) 4)
      pure (recompose_double lo hi))
        m
    else (hardware_trap out_of_bounds_read >> pure 0) m

unfoldable pub write_little_endian_float : ℕ → ℕ → M (Unit {0})
write_little_endian_float addr value m =
    if address_valid m.memory addr 4
    then write_4 (heap_to_host addr) value m
    else hardware_trap out_of_bounds_write m

unfoldable pub write_little_endian_double : ℕ → ℕ → M (Unit {0})
write_little_endian_double addr value m =
    if address_valid m.memory addr 8
    then (do
      write_4 (heap_to_host addr) (decompose_lo value)
      write_4 (offset_host (heap_to_host addr) 4) (decompose_hi value))
        m
    else hardware_trap out_of_bounds_write m

-- The type argument of the integer templates by its size.
pub data Width : Type 0 where
  byte half word : Width

abbrev pub sizeof : Width → ℕ
sizeof byte = 1
sizeof half = 2
sizeof word = 4

-- skl_load_store_t.
pub record LoadStore : Type 0 where
  pub rd : ℕ
  pub rbase : ℕ
  pub rindex : ℕ
  pub scale : ℕ
  pub offset : ℕ

pub data RegMem : Type 0 where
  lwi : (rd rbase cdata : ℕ) → RegMem
  lfi ldi : (rd value : ℕ) → RegMem
  load_int : Width → (sign_extend : Bool) → LoadStore → RegMem
  store_int : Width → LoadStore → RegMem
  load_real store_real : (is_double : Bool) → LoadStore → RegMem
  la : LoadStore → RegMem

-- The address that a load or a store computes.
unfoldable pub effective_address : LoadStore → M ℕ
unfolding compute_effective_address
effective_address i = do
  base ← read_integer_register i.rbase
  index ← read_integer_register i.rindex
  pure (compute_effective_address base index i.scale i.offset)

-- The switch on `sizeof(T)`.
unfoldable pub read_width : Width → Bool → Haddr → M ℕ
unfolding read_1_se read_1_ze read_2_se read_2_ze read_4_ze
read_width byte sign_extend p = if sign_extend then read_1_se p else read_1_ze p
read_width half sign_extend p = if sign_extend then read_2_se p else read_2_ze p
read_width word sign_extend p = read_4_ze p

unfoldable pub write_width : Width → Haddr → ℕ → M (Unit {0})
unfolding write_1 write_2 write_4
write_width byte p value = write_1 p (uint8 value)
write_width half p value = write_2 p (uint16 value)
write_width word p value = write_4 p value

-- skl_load_int_t::interpret and skl_store_int_t::interpret at the effective address.
unfoldable pub load_int_at : Width → Bool → ℕ → ℕ → M (Unit {0})
unfolding read_width
load_int_at width sign_extend rd ea m =
    if address_valid m.memory ea (sizeof width)
    then (do
      value ← read_width width sign_extend (heap_to_host ea)
      write_integer_register rd value
      increment_pc 2)
        m
    else hardware_trap out_of_bounds_read m

unfoldable pub store_int_at : Width → ℕ → ℕ → M (Unit {0})
unfolding write_width
store_int_at width value ea m =
    if address_valid m.memory ea (sizeof width)
    then (do write_width width (heap_to_host ea) value; increment_pc 2) m
    else hardware_trap out_of_bounds_write m

module _ (fp : Ieee) where
  unfoldable pub load_real_at : Bool → ℕ → ℕ → M (Unit {0})
  unfolding read_little_endian_double read_little_endian_float
  load_real_at is_double rd ea = do
    value ←
        if is_double
        then read_little_endian_double ea
        else (do v ← read_little_endian_float ea; pure (fp.of_float v))
    raised ← exception_raised
    if raised then pure tt else (do write_real_register rd value; increment_pc 2)

  unfoldable pub store_real_at : Bool → ℕ → ℕ → M (Unit {0})
  unfolding write_little_endian_double write_little_endian_float
  store_real_at is_double value ea = do
    if is_double
        then write_little_endian_double ea value
        else write_little_endian_float ea (fp.to_float value)
    raised ← exception_raised
    if raised then pure tt else increment_pc 2

  unfoldable pub interpret_reg_mem : RegMem → M (Unit {0})
  unfolding effective_address load_int_at store_int_at load_real_at store_real_at
  interpret_reg_mem (lwi rd rbase cdata) = do
    base ← read_integer_register rbase
    write_integer_register rd (add32 base cdata)
    increment_pc 2
  interpret_reg_mem (lfi rd value) = do write_real_register rd value; increment_pc 2
  interpret_reg_mem (ldi rd value) = do write_real_register rd value; increment_pc 3
  interpret_reg_mem (load_int width sign_extend i) = do
    ea ← effective_address i
    load_int_at width sign_extend i.rd ea
  interpret_reg_mem (store_int width i) = do
    value ← read_integer_register i.rd
    ea ← effective_address i
    store_int_at width value ea
  interpret_reg_mem (load_real is_double i) = do
    ea ← effective_address i
    load_real_at is_double i.rd ea
  interpret_reg_mem (store_real is_double i) = do
    ea ← effective_address i
    value ← read_real_register i.rd
    store_real_at is_double value ea
  interpret_reg_mem (la i) = do
    ea ← effective_address i
    write_integer_register i.rd ea
    increment_pc 2

  unfoldable pub construct_load_store : (LoadStore → RegMem) → ℕ → ℕ → M RegMem
  unfolding field
  construct_load_store make pc inst = do
    offset ← read (add32 pc 4) false 4
    pure (
        make (record {
          rd = field inst 25 21;
          rbase = field inst 20 16;
          rindex = field inst 15 11;
          scale = field inst 7 6;
          offset = offset;
        }))

  unfoldable pub construct_lwi : ℕ → ℕ → M RegMem
  unfolding field
  construct_lwi pc inst = do
    cdata ← read (add32 pc 4) false 4
    pure (lwi (field inst 25 21) (field inst 20 16) cdata)

  unfoldable pub construct_lfi : ℕ → ℕ → M RegMem
  unfolding field read_little_endian_float
  construct_lfi pc inst = do
    value ← read_little_endian_float (add32 pc 4)
    pure (lfi (field inst 25 21) (fp.of_float value))

  unfoldable pub construct_ldi : ℕ → ℕ → M RegMem
  unfolding field read_little_endian_double
  construct_ldi pc inst = do
    value ← read_little_endian_double (add32 pc 4)
    pure (ldi (field inst 25 21) value)

  -- loader/skl_reg_mem_opc.h.
  abbrev pub reg_mem_opc : ℕ → ℕ → ℕ → M RegMem
  reg_mem_opc n =
      if n == 0
      then construct_load_store (load_int byte true)
      else if n == 1
      then construct_load_store (load_int byte false)
      else if n == 2
      then construct_load_store (load_real true)
      else if n == 3
      then construct_ldi
      else if n == 4
      then construct_load_store (load_real false)
      else if n == 5
      then construct_lfi
      else if n == 6
      then construct_load_store (load_int half true)
      else if n == 7
      then construct_load_store (load_int half false)
      else if n == 8
      then construct_load_store (load_int word true)
      else if n == 9
      then construct_lwi
      else if n == 10
      then construct_load_store (store_int byte)
      else if n == 11
      then construct_load_store (store_real true)
      else if n == 12
      then construct_load_store (store_real false)
      else if n == 13
      then construct_load_store (store_int half)
      else if n == 14
      then construct_load_store (store_int word)
      else if n == 15
      then construct_load_store la
      else λ pc inst. halt not_implemented

  unfoldable pub op_reg_mem : ℕ → ℕ → M RegMem
  unfolding field construct_load_store construct_lwi construct_lfi construct_ldi
  op_reg_mem pc inst = reg_mem_opc (field inst 4 0) pc inst
