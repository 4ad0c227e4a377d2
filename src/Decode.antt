-- ===== src/Decode.antt =====
-- loader/skl.cpp: the fetch and the decoding of an instruction.
use oberon.Prelude.{ℕ, ◌-◌, Bool, true, false, Option, none, some, ◌||◌, bit_and}
use oberon.Prelude.Tests.{◌==◌, ltb, if◌then◌else◌}
use oberon.Ieee.{Ieee}
use oberon.Shift.{field}
use oberon.Machine.State.{M, pure, halt, not_implemented, ◌>>=◌, ◌>>◌}
use oberon.Machine.Register.{set_exception_raised, program_counter}
use oberon.Machine.Trap.{hardware_trap, bad_alignment, invalid_opcode}
use oberon.Machine.Memory.{read, ignored}
use oberon.Instruction.GenReg.{GenReg, interpret_gen_reg, op_gen_reg}
use oberon.Instruction.IntReg.{IntReg, interpret_int_reg, op_int_reg}
use oberon.Instruction.System.{
  CtrlReg, interpret_ctrl_reg, op_ctrl_reg, SysReg, interpret_sys_reg, op_sys_reg, SysTrap,
  interpret_systrap, op_systrap,
}
use oberon.Instruction.Vmsvc.{Vmsvc, interpret_vmsvc, op_misc}
use oberon.Instruction.Jump.{Jump, interpret_jump, op_jump, Jral, interpret_jral, op_jral}
use oberon.Instruction.RegMem.{RegMem, interpret_reg_mem, op_reg_mem}
use oberon.Instruction.BitTest.{BitTest, interpret_bit_test, op_bit_test}
use oberon.Instruction.Stack.{Stack, interpret_stack, op_stack}
use oberon.Instruction.Cond.{CondSet, interpret_cond_set, op_conditional_set}
use oberon.Instruction.FpReg.{FpReg, interpret_fp_reg, op_fp_reg}

-- The structs derived from instruction_t, by the class that decodes them.
pub data Instruction : Type 0 where
  gen_reg : GenReg → Instruction
  int_reg : IntReg → Instruction
  ctl_reg : CtrlReg → Instruction
  sys_reg : SysReg → Instruction
  misc : Vmsvc → Instruction
  jral : Jral → Instruction
  jump : Jump → Instruction
  reg_mem : RegMem → Instruction
  bit_test : BitTest → Instruction
  stack : Stack → Instruction
  conditional_set : CondSet → Instruction
  systrap : SysTrap → Instruction
  fp_reg : FpReg → Instruction

-- loader/skl_opcode_class.h has fourteen classes.
abbrev pub n_opcode_classes : ℕ
n_opcode_classes = 14

unfoldable pub classof : ℕ → ℕ
unfolding field
classof inst = let v = field inst 31 26 in if ltb n_opcode_classes v then n_opcode_classes else v

-- `aligned` is true of every address.
abbrev pub aligned : ℕ → ℕ → Bool
aligned addr size = true || bit_and addr (size - 1) == 0

unfoldable pub fetch_instruction : ℕ → M ℕ
fetch_instruction pc =
    if aligned pc 4 then read pc false 4 else (hardware_trap bad_alignment >> pure ignored)

module _ (fp : Ieee) (service : ℕ → ℕ → M (Unit {0})) where
  -- The virtual method `interpret`.
  unfoldable pub interpret : Instruction → M (Unit {0})
  interpret (gen_reg i) = interpret_gen_reg fp i.kind i
  interpret (int_reg i) = interpret_int_reg i
  interpret (ctl_reg i) = interpret_ctrl_reg i
  interpret (sys_reg i) = interpret_sys_reg i
  interpret (misc i) = interpret_vmsvc service i
  interpret (jral i) = interpret_jral i
  interpret (jump i) = interpret_jump i
  interpret (reg_mem i) = interpret_reg_mem fp i
  interpret (bit_test i) = interpret_bit_test i
  interpret (stack i) = interpret_stack fp i
  interpret (conditional_set i) = interpret_cond_set i
  interpret (systrap i) = interpret_systrap i
  interpret (fp_reg i) = interpret_fp_reg fp i

-- An allocated struct, as the result of the switch.
abbrev pub allocate : {A : Type 0} → (A → Instruction) → M A → M (Option Instruction)
allocate make m = m >>= λ i. pure (some (make i))

module _ (fp : Ieee) where
  -- The switch on the class; `none` is the NULL of an invalid opcode.
  unfoldable pub decode_class : ℕ → ℕ → ℕ → M (Option Instruction)
  decode_class cls pc inst =
      if cls == 0
      then allocate gen_reg (op_gen_reg inst)
      else if cls == 1
      then allocate int_reg (op_int_reg inst)
      else if cls == 2
      then halt not_implemented
      else if cls == 3
      then allocate ctl_reg (op_ctrl_reg inst)
      else if cls == 4
      then allocate sys_reg (op_sys_reg inst)
      else if cls == 5
      then allocate misc (op_misc inst)
      else if cls == 6
      then allocate jral (op_jral pc inst)
      else if cls == 7
      then allocate jump (op_jump pc inst)
      else if cls == 8
      then allocate reg_mem (op_reg_mem fp pc inst)
      else if cls == 9
      then allocate bit_test (op_bit_test inst)
      else if cls == 10
      then allocate stack (op_stack inst)
      else if cls == 11
      then allocate conditional_set (op_conditional_set inst)
      else if cls == 12
      then allocate systrap (op_systrap inst)
      else if cls == 13
      then allocate fp_reg (op_fp_reg inst)
      else hardware_trap invalid_opcode >> pure none

  -- fetch_and_cache_instruction up to the call of cache_instruction.
  unfoldable pub fetch_and_decode : M (Option Instruction)
  unfolding fetch_instruction classof decode_class
  fetch_and_decode = do
    pc ← program_counter
    set_exception_raised false
    inst ← fetch_instruction pc
    decode_class (classof inst) pc inst
