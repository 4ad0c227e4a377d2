-- ===== src/Instruction/System.antt =====
-- loader/skl_ctrl_reg.cpp, loader/skl_sys_reg.cpp and loader/skl_systrap.cpp.
pub mod Check
use oberon.Prelude.{ℕ, Bool, ◌&&◌, not, true, Option, none, some}
use oberon.Prelude.Tests.{◌==◌, ltb, if◌then◌else◌}
use oberon.Prelude.Int.{ℤ, pos, negsuc, ltb_ℤ}
use oberon.Prelude.Word.{int32}
use oberon.Shift.{field}
use oberon.Machine.State.{M, pure, halt, not_implemented, internal_error, assert, ◌>>=◌, ◌>>◌}
use oberon.Machine.Register.{
  read_integer_register, write_integer_register, increment_pc, instruction_count,
}
use oberon.Machine.Trap.{read_control_register, write_control_register, software_trap}

-- skl_lcr_t and skl_scr_t.
pub data CtrlReg : Type 0 where
  lcr scr : (rd r0 : ℕ) → CtrlReg

unfoldable pub interpret_ctrl_reg : CtrlReg → M (Unit {0})
interpret_ctrl_reg (lcr rd r0) = do
  v ← read_control_register r0
  write_integer_register rd v
  increment_pc 1
interpret_ctrl_reg (scr rd r0) = do
  v ← read_integer_register r0
  write_control_register rd v
  increment_pc 1

unfoldable pub op_ctrl_reg : ℕ → M CtrlReg
unfolding field
op_ctrl_reg inst =
    let opc = field inst 4 0 in
    if opc == 0
    then pure (lcr (field inst 25 21) (field inst 20 16))
    else if opc == 1
    then pure (scr (field inst 25 21) (field inst 20 16))
    else halt not_implemented

-- skl_sys_reg_t: the register that receives the instruction count.
pub record SysReg : Type 0 where
  pub rd : ℕ

unfoldable pub interpret_sys_reg : SysReg → M (Unit {0})
interpret_sys_reg i = do
  count ← instruction_count
  write_integer_register i.rd count
  increment_pc 1

unfoldable pub op_sys_reg : ℕ → M SysReg
unfolding field
op_sys_reg inst =
    if field inst 4 0 == 2 then pure (record { rd = field inst 25 21 }) else halt not_implemented

-- skl_trapnil_t, the four skl_traprange_*_t and skl_traparray_t.
pub data TrapTest : Type 0 where
  nil range_sint range_int range_lint range_bitset array : TrapTest

-- skl_trap_t.
pub record SysTrap : Type 0 where
  pub test : TrapTest
  pub opc : ℕ
  pub rd : ℕ
  pub r0 : ℕ
  pub subcl : ℕ

-- `lo <= value && value <= hi` on an `int`.
abbrev pub in_range : ℤ → ℤ → ℤ → Bool
in_range lo hi value = not (ltb_ℤ value lo) && not (ltb_ℤ hi value)

-- Whether the instruction goes on, from the registers R0 and Rd.
unfoldable pub passes : TrapTest → ℕ → ℕ → Bool
passes nil r0 rd = not (r0 == 0)
passes range_sint r0 rd = in_range (negsuc 127) (pos 127) (int32 r0)
passes range_int r0 rd = in_range (negsuc 32767) (pos 32767) (int32 r0)
passes range_lint r0 rd = true
passes range_bitset r0 rd = in_range (pos 0) (pos 31) (int32 r0)
passes array r0 rd = not (ltb_ℤ (int32 r0) (pos 0)) && ltb r0 rd

-- skl_trap_t::epilog.
unfoldable pub trap_epilog : ℕ → Bool → M (Unit {0})
trap_epilog opc trapped = if trapped then software_trap opc else increment_pc 1

unfoldable pub interpret_systrap : SysTrap → M (Unit {0})
unfolding passes trap_epilog
interpret_systrap i = do
  r0 ← read_integer_register i.r0
  rd ← read_integer_register i.rd
  trap_epilog i.opc (not (passes i.test r0 rd))

-- Numbers of loader/skl_systrap_opc.h.
abbrev pub traprange : ℕ
traprange = 12

abbrev pub traparray : ℕ
traparray = 13

abbrev pub trapguard : ℕ
trapguard = 19

abbrev pub trapnil : ℕ
trapnil = 20

abbrev pub range_test : ℕ → Option TrapTest
range_test subcl =
    if subcl == 4
    then some range_sint
    else if subcl == 5
    then some range_int
    else if subcl == 6
    then some range_lint
    else if subcl == 9
    then some range_bitset
    else none

-- Constructs the instruction; that of `trapnil` asserts that Rd is 0.
abbrev pub construct_trap : TrapTest → ℕ → M SysTrap
construct_trap test inst = pure (record {
  test = test;
  opc = field inst 15 8;
  rd = field inst 25 21;
  r0 = field inst 20 16;
  subcl = field inst 7 0;
})

unfoldable pub op_systrap : ℕ → M SysTrap
unfolding field
op_systrap inst =
    let opc = field inst 15 8 in
    if opc == trapguard
    then assert (field inst 25 21 == 0) >> construct_trap nil inst
    else if opc == trapnil
    then assert (field inst 25 21 == 0) >> construct_trap nil inst
    else if opc == traprange
    then elim (range_test (field inst 7 0)) [
      | some test ↦ construct_trap test inst
      | none ↦ halt internal_error
    ]
    else if opc == traparray
    then construct_trap array inst
    else halt internal_error
