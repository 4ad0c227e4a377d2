-- ===== src/Execute/Unmoved.antt =====
-- loader/skl.cpp: no instruction moves the memory or changes the build.
use oberon.Prelude.{ℕ}
use oberon.Ieee.{Ieee}
use oberon.Machine.State.{M}
use oberon.Machine.Keeps.{Keeps}
use oberon.Instruction.Unmoved.{
  Keeps-interpret_gen_reg, Keeps-interpret_fp_reg, Keeps-interpret_cond_set, Keeps-interpret_jump,
  Keeps-interpret_jral, Keeps-interpret_ctrl_reg, Keeps-interpret_sys_reg, Keeps-interpret_systrap,
  Keeps-interpret_vmsvc,
}
use oberon.Instruction.UnmovedMemory.{
  Keeps-interpret_int_reg, Keeps-interpret_bit_test, Keeps-interpret_reg_mem, Keeps-interpret_stack,
}
use oberon.Decode.{
  Instruction, gen_reg, int_reg, ctl_reg, sys_reg, misc, jral, jump, reg_mem, bit_test, stack,
  conditional_set, systrap, fp_reg, interpret,
}

module _ (fp : Ieee) (service : ℕ → ℕ → M (Unit {0})) (kept : (a b : ℕ) → Keeps (service a b)) where
  pub Keeps-interpret : (i : Instruction) → Keeps (interpret fp service i)
  unfolding interpret
  Keeps-interpret (gen_reg i) = Keeps-interpret_gen_reg fp i.kind i
  Keeps-interpret (int_reg i) = Keeps-interpret_int_reg i
  Keeps-interpret (ctl_reg i) = Keeps-interpret_ctrl_reg i
  Keeps-interpret (sys_reg i) = Keeps-interpret_sys_reg i
  Keeps-interpret (misc i) = Keeps-interpret_vmsvc service kept i
  Keeps-interpret (jral i) = Keeps-interpret_jral i
  Keeps-interpret (jump i) = Keeps-interpret_jump i
  Keeps-interpret (reg_mem i) = Keeps-interpret_reg_mem fp i
  Keeps-interpret (bit_test i) = Keeps-interpret_bit_test i
  Keeps-interpret (stack i) = Keeps-interpret_stack fp i
  Keeps-interpret (conditional_set i) = Keeps-interpret_cond_set i
  Keeps-interpret (systrap i) = Keeps-interpret_systrap i
  Keeps-interpret (fp_reg i) = Keeps-interpret_fp_reg fp i
