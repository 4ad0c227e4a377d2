-- ===== src/Instruction/Unmoved.antt =====
-- loader/skl_*.cpp: no instruction between registers moves the memory or changes the build.
use oberon.Prelude.{ℕ}
use oberon.Prelude.Word.{int32}
use oberon.Ieee.{Ieee}
use oberon.Machine.State.{M}
use oberon.Machine.Register.{write_integer_register, write_real_register}
use oberon.Machine.Keeps.{Keeps}
use oberon.Machine.Unmoved.{memory_rules}
use oberon.Instruction.GenReg.{
  GenReg, GenRegOpc, int_value, interpret_int, register_as_double, epilog, real_value,
  interpret_gen_reg, RegisterBank, rb_integer, rb_double, GenRegKind, int_int, int_real, real,
  opc_add, opc_sub, opc_mul, opc_div, opc_mod, opc_cmp, opc_abs,
}
use oberon.Instruction.Cond.{CondSet, interpret_cond_set}
use oberon.Instruction.Jump.{Jump, interpret_jump, conditional, jump, jal, Jral, interpret_jral}
use oberon.Instruction.System.{
  CtrlReg, lcr, scr, interpret_ctrl_reg, SysReg, interpret_sys_reg, SysTrap, interpret_systrap,
}
use oberon.Instruction.FpReg.{FpReg, interpret_fp_reg}
use oberon.Instruction.Vmsvc.{Vmsvc, interpret_vmsvc}

Keeps-int_value : (o : GenRegOpc) (l r : ℕ) → Keeps (int_value o l r)
unfolding int_value
Keeps-int_value opc_add l r = search memory_rules
Keeps-int_value opc_sub l r = search memory_rules
Keeps-int_value opc_mul l r = search memory_rules
Keeps-int_value opc_div l r = search memory_rules
Keeps-int_value opc_mod l r = search memory_rules
Keeps-int_value opc_cmp l r = search memory_rules
Keeps-int_value opc_abs l r = search memory_rules

Keeps-interpret_int :
    (store : ℕ → M (Unit {0}))
    → ((v : ℕ) → Keeps (store v))
    → (i : GenReg) → Keeps (interpret_int store i)
unfolding interpret_int
Keeps-interpret_int store k i = search (memory_rules, Keeps-int_value) depth 10

module _ (fp : Ieee) where
  Keeps-register_as_double : (i : ℕ) (b : RegisterBank) → Keeps (register_as_double fp i b)
  unfolding register_as_double
  Keeps-register_as_double i rb_integer = search memory_rules
  Keeps-register_as_double i rb_double = search memory_rules

  Keeps-bank :
      {A : Type 0} (b : RegisterBank) (c d : M A)
      → Keeps c
      → Keeps d
      → Keeps (elim b [ rb_integer ↦ c | rb_double ↦ d ])
  Keeps-bank rb_integer c d kc kd = kc
  Keeps-bank rb_double c d kc kd = kd

  Keeps-epilog : (i : GenReg) (v : ℕ) → Keeps (epilog fp i v)
  unfolding epilog
  Keeps-epilog i v = search (memory_rules, Keeps-bank i.bd) depth 10

  Keeps-real_value : (o : GenRegOpc) (i : GenReg) (l r : ℕ) → Keeps (real_value fp o i l r)
  unfolding real_value
  Keeps-real_value opc_add i l r = Keeps-epilog i _
  Keeps-real_value opc_sub i l r = Keeps-epilog i _
  Keeps-real_value opc_mul i l r = Keeps-epilog i _
  Keeps-real_value opc_div i l r = search (memory_rules, Keeps-epilog) depth 10
  Keeps-real_value opc_mod i l r = search memory_rules
  Keeps-real_value opc_cmp i l r = Keeps-epilog i _
  Keeps-real_value opc_abs i l r = Keeps-epilog i _

  pub Keeps-interpret_gen_reg : (k : GenRegKind) (i : GenReg) → Keeps (interpret_gen_reg fp k i)
  unfolding interpret_gen_reg
  Keeps-interpret_gen_reg int_int i =
      Keeps-interpret_int (write_integer_register i.rd) (λ v. search memory_rules) i
  Keeps-interpret_gen_reg int_real i =
      Keeps-interpret_int (λ v. write_real_register i.rd (fp.of_int32 (int32 v)))
        (λ v. search memory_rules) i
  Keeps-interpret_gen_reg real i =
      search (memory_rules, Keeps-register_as_double, Keeps-real_value) depth 10

  pub Keeps-interpret_fp_reg : (i : FpReg) → Keeps (interpret_fp_reg fp i)
  unfolding interpret_fp_reg
  Keeps-interpret_fp_reg i = search memory_rules depth 10

pub Keeps-interpret_cond_set : (i : CondSet) → Keeps (interpret_cond_set i)
unfolding interpret_cond_set
Keeps-interpret_cond_set i = search memory_rules depth 10

pub Keeps-interpret_jump : (i : Jump) → Keeps (interpret_jump i)
unfolding interpret_jump
Keeps-interpret_jump (conditional o r a d) = search memory_rules depth 10
Keeps-interpret_jump (jump a d) = search memory_rules
Keeps-interpret_jump (jal r d a) = search memory_rules

pub Keeps-interpret_jral : (i : Jral) → Keeps (interpret_jral i)
unfolding interpret_jral
Keeps-interpret_jral i = search memory_rules depth 10

pub Keeps-interpret_ctrl_reg : (i : CtrlReg) → Keeps (interpret_ctrl_reg i)
unfolding interpret_ctrl_reg
Keeps-interpret_ctrl_reg (lcr d r) = search memory_rules depth 10
Keeps-interpret_ctrl_reg (scr d r) = search memory_rules depth 10

pub Keeps-interpret_sys_reg : (i : SysReg) → Keeps (interpret_sys_reg i)
unfolding interpret_sys_reg
Keeps-interpret_sys_reg i = search memory_rules depth 10

pub Keeps-interpret_systrap : (i : SysTrap) → Keeps (interpret_systrap i)
unfolding interpret_systrap
Keeps-interpret_systrap i = search memory_rules depth 10

-- The services are a parameter, which is to keep the place too.
module _ (service : ℕ → ℕ → M (Unit {0})) (kept : (a b : ℕ) → Keeps (service a b)) where
  pub Keeps-interpret_vmsvc : (i : Vmsvc) → Keeps (interpret_vmsvc service i)
  unfolding interpret_vmsvc
  Keeps-interpret_vmsvc i = search (memory_rules, kept) depth 12
