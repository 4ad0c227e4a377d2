-- ===== src/Instruction/BitTest.antt =====
-- loader/skl_bit_test.cpp: tests, clears and sets of one bit in a register or in memory.
pub mod Memory
use oberon.Prelude.{ℕ, Bool, true, false, Option, none, some, bit_and, bit_or}
use oberon.Prelude.Tests.{◌==◌, if◌then◌else◌}
use oberon.Prelude.Word.{not32}
use oberon.Shift.{field, left_shift, right_shift}
use oberon.Machine.State.{M, pure, halt, not_implemented, ◌>>=◌, ◌>>◌}
use oberon.Machine.Register.{
  read_integer_register, write_integer_register, increment_pc, exception_raised,
}
use oberon.Machine.Memory.{read, write}
use oberon.Instruction.IntReg.{max_set}

unfoldable pub bit_test : ℕ → ℕ → ℕ
unfolding right_shift
bit_test v b = bit_and (right_shift v b) 1

unfoldable pub bit_test_memory_read : ℕ → ℕ → M ℕ
unfolding bit_test
bit_test_memory_read ea b = do v ← read ea true 4; pure (bit_test v b)

-- The word with the bit cleared or set.
unfoldable pub cleared : ℕ → ℕ → ℕ
unfolding left_shift
cleared v b = bit_and v (not32 (left_shift 1 b))

unfoldable pub with_bit : ℕ → ℕ → ℕ
unfolding left_shift
with_bit v b = bit_or v (left_shift 1 b)

unfoldable pub bit_test_memory_clear : ℕ → ℕ → M ℕ
unfolding bit_test cleared
bit_test_memory_clear ea b = do
  v ← read ea true 4
  raised ← exception_raised
  if raised then pure tt else write ea (cleared v b) 4
  pure (bit_test v b)

unfoldable pub bit_test_memory_set : ℕ → ℕ → M ℕ
unfolding bit_test with_bit
bit_test_memory_set ea b = do
  v ← read ea true 4
  raised ← exception_raised
  if raised then pure tt else write ea (with_bit v b) 4
  pure (bit_test v b)

-- skl_bt_t and skl_bti_t, then the three pairs on memory.
pub data BitAction : Type 0 where
  on_register on_memory clear_memory set_memory : BitAction

-- `immediate` tells the structs whose bit number is the field C from those that read it in R0.
pub record BitTest : Type 0 where
  pub action : BitAction
  pub immediate : Bool
  pub rd : ℕ
  pub r0 : ℕ
  pub r1 : ℕ

-- skl_btm_base_t::epilog and skl_btmi_base_t::epilog.
unfoldable pub bit_epilog : BitTest → ℕ → M (Unit {0})
bit_epilog i b = do
  raised ← exception_raised
  if raised then pure tt else (do write_integer_register i.rd b; increment_pc 1)

unfoldable pub bit_body : BitAction → BitTest → ℕ → ℕ → M (Unit {0})
unfolding bit_test bit_epilog bit_test_memory_read bit_test_memory_clear bit_test_memory_set
bit_body on_register i b v = do write_integer_register i.rd (bit_test v b); increment_pc 1
bit_body on_memory i b addr = bit_test_memory_read addr b >>= bit_epilog i
bit_body clear_memory i b addr = bit_test_memory_clear addr b >>= bit_epilog i
bit_body set_memory i b addr = bit_test_memory_set addr b >>= bit_epilog i

unfoldable pub interpret_bit_test : BitTest → M (Unit {0})
unfolding bit_body
interpret_bit_test i = do
  r0 ← read_integer_register i.r0
  r1 ← read_integer_register i.r1
  bit_body i.action i (if i.immediate then i.r0 else bit_and r0 max_set) r1

-- loader/skl_bit_test_opc.h.
abbrev pub bit_test_opc : ℕ → Option (BitAction × Bool)
bit_test_opc n =
    if n == 0
    then some (on_register, false)
    else if n == 1
    then some (on_register, true)
    else if n == 2
    then some (on_memory, false)
    else if n == 3
    then some (on_memory, true)
    else if n == 4
    then some (clear_memory, false)
    else if n == 5
    then some (clear_memory, true)
    else if n == 6
    then some (set_memory, false)
    else if n == 7
    then some (set_memory, true)
    else none

unfoldable pub op_bit_test : ℕ → M BitTest
unfolding field
op_bit_test inst = elim (bit_test_opc (field inst 4 0)) [
  | none ↦ halt not_implemented
  | some (action, immediate) ↦ pure (record {
    action = action;
    immediate = immediate;
    rd = field inst 25 21;
    r0 = field inst 20 16;
    r1 = field inst 15 11;
  })
]
