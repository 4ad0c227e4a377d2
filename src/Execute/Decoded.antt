-- ===== src/Execute/Decoded.antt =====
-- loader/skl.cpp: no decoder moves the memory or changes the build.
use oberon.Prelude.{ℕ, Option, none, some}
use oberon.Prelude.Tests.{◌==◌}
use oberon.Ieee.{Ieee}
use oberon.Machine.State.{internal_error, halt}
use oberon.Shift.{field}
use oberon.Machine.Keeps.{
  Keeps, Keeps-option, Keeps-if-at, Keeps-if, Keeps-then, Keeps-assert, Keeps-halt,
}
use oberon.Machine.Unmoved.{memory_rules}
use oberon.Instruction.UnmovedMemory.{
  Keeps-read_little_endian_float, Keeps-read_little_endian_double,
}
use oberon.Instruction.GenReg.{
  gen_reg_opc, GenReg, op_gen_reg, construct_gen_reg, GenRegKind, GenRegOpc, real, int_int,
  int_real, opc_add, opc_sub, opc_mul, opc_div, opc_mod, opc_cmp, opc_abs,
}
use oberon.Instruction.IntReg.{op_int_reg, int_reg_opc}
use oberon.Instruction.System.{
  SysTrap, op_ctrl_reg, op_sys_reg, op_systrap, construct_trap, TrapTest, range_test, nil, array,
  trapguard, trapnil, traprange, traparray,
}
use oberon.Instruction.Vmsvc.{op_misc}
use oberon.Instruction.Jump.{op_jump, op_jral, construct_conditional, construct_jump, construct_jal}
use oberon.Instruction.RegMem.{
  RegMem, LoadStore, op_reg_mem, construct_load_store, construct_lwi, construct_lfi, construct_ldi,
}
use oberon.Instruction.BitTest.{op_bit_test, bit_test_opc}
use oberon.Instruction.Stack.{op_stack}
use oberon.Instruction.Cond.{relation_of, op_conditional_set}
use oberon.Instruction.FpReg.{op_fp_reg, fp_reg_opc}
use oberon.Instruction.Cond.{Relation}
use oberon.Decode.{decode_class, fetch_and_decode, fetch_instruction}

-- DIV and MOD of reals are refused, by opcode.
Keeps-constructed :
    (k : GenRegKind) (o : GenRegOpc) (i : GenReg)
    → Keeps (construct_gen_reg (record i { kind = k; opc = o }))
Keeps-constructed real opc_add i = search memory_rules
Keeps-constructed real opc_sub i = search memory_rules
Keeps-constructed real opc_mul i = search memory_rules
Keeps-constructed real opc_div i = search memory_rules
Keeps-constructed real opc_mod i = search memory_rules
Keeps-constructed real opc_cmp i = search memory_rules
Keeps-constructed real opc_abs i = search memory_rules
Keeps-constructed int_int o i = search memory_rules
Keeps-constructed int_real o i = search memory_rules

Keeps-construct_gen_reg : (i : GenReg) → Keeps (construct_gen_reg i)
Keeps-construct_gen_reg i = Keeps-constructed i.kind i.opc i

Keeps-op_gen_reg : (w : ℕ) → Keeps (op_gen_reg w)
unfolding op_gen_reg
Keeps-op_gen_reg w =
    Keeps-option (gen_reg_opc (field w 4 0)) _ _ (search memory_rules)
      (λ opc. Keeps-construct_gen_reg _)

Keeps-op_int_reg : (w : ℕ) → Keeps (op_int_reg w)
unfolding op_int_reg
Keeps-op_int_reg w =
    Keeps-option (int_reg_opc (field w 4 0)) _ _ (search memory_rules) (λ opc. search memory_rules)

Keeps-op_ctrl_reg : (w : ℕ) → Keeps (op_ctrl_reg w)
unfolding op_ctrl_reg
Keeps-op_ctrl_reg w = search memory_rules

Keeps-op_sys_reg : (w : ℕ) → Keeps (op_sys_reg w)
unfolding op_sys_reg
Keeps-op_sys_reg w = search memory_rules

Keeps-construct_trap : (t : TrapTest) (w : ℕ) → Keeps (construct_trap t w)
Keeps-construct_trap t w = search memory_rules

Keeps-range :
    (w : ℕ) (t : Option TrapTest)
    → Keeps {A = SysTrap}
        (elim t [ none ↦ halt internal_error | some test ↦ construct_trap test w ])
Keeps-range w none = Keeps-halt internal_error
Keeps-range w (some test) = Keeps-construct_trap test w

Keeps-op_systrap : (w : ℕ) → Keeps (op_systrap w)
unfolding op_systrap
Keeps-op_systrap w =
    let unused = Keeps-then _ _ (Keeps-assert (field w 25 21 == 0)) (Keeps-construct_trap nil w) in
    Keeps-if (field w 15 8 == trapguard) _ _ unused (
      Keeps-if (field w 15 8 == trapnil) _ _ unused (
        Keeps-if (field w 15 8 == traprange) _ _ (Keeps-range w (range_test (field w 7 0))) (
          Keeps-if (field w 15 8 == traparray) _ _ (Keeps-construct_trap array w)
            (Keeps-halt internal_error))))

Keeps-op_misc : (w : ℕ) → Keeps (op_misc w)
unfolding op_misc
Keeps-op_misc w = search memory_rules

Keeps-op_jral : (pc w : ℕ) → Keeps (op_jral pc w)
unfolding op_jral
Keeps-op_jral pc w = search memory_rules

Keeps-construct_conditional : (r : Relation) (pc w : ℕ) → Keeps (construct_conditional r pc w)
unfolding construct_conditional
Keeps-construct_conditional r pc w = search memory_rules

Keeps-construct_jump : (pc : ℕ) → Keeps (construct_jump pc)
unfolding construct_jump
Keeps-construct_jump pc = search memory_rules

Keeps-construct_jal : (pc w : ℕ) → Keeps (construct_jal pc w)
unfolding construct_jal
Keeps-construct_jal pc w = search memory_rules

Keeps-op_jump : (pc w : ℕ) → Keeps (op_jump pc w)
unfolding op_jump
Keeps-op_jump pc w =
    Keeps-option (relation_of (field w 4 0)) _ _
      (search (memory_rules, Keeps-construct_jump, Keeps-construct_jal))
      (λ opc. Keeps-construct_conditional opc pc w)

Keeps-op_bit_test : (w : ℕ) → Keeps (op_bit_test w)
unfolding op_bit_test
Keeps-op_bit_test w =
    Keeps-option (bit_test_opc (field w 4 0)) _ _ (search memory_rules) (λ a. search memory_rules)

Keeps-op_stack : (w : ℕ) → Keeps (op_stack w)
unfolding op_stack
Keeps-op_stack w = search memory_rules depth 24

Keeps-op_conditional_set : (w : ℕ) → Keeps (op_conditional_set w)
unfolding op_conditional_set
Keeps-op_conditional_set w =
    Keeps-option (relation_of (field w 4 0)) _ _ (search memory_rules) (λ opc. search memory_rules)

Keeps-op_fp_reg : (w : ℕ) → Keeps (op_fp_reg w)
unfolding op_fp_reg
Keeps-op_fp_reg w =
    Keeps-option (fp_reg_opc (field w 4 0)) _ _ (search memory_rules) (λ opc. search memory_rules)

Keeps-construct_load_store :
    (fp : Ieee) (make : LoadStore → RegMem) (pc w : ℕ) → Keeps (construct_load_store fp make pc w)
unfolding construct_load_store
Keeps-construct_load_store fp make pc w = search memory_rules

module _ (fp : Ieee) where
  Keeps-construct_lwi : (pc w : ℕ) → Keeps (construct_lwi fp pc w)
  unfolding construct_lwi
  Keeps-construct_lwi pc w = search memory_rules

  Keeps-construct_lfi : (pc w : ℕ) → Keeps (construct_lfi fp pc w)
  unfolding construct_lfi
  Keeps-construct_lfi pc w = search (memory_rules, Keeps-read_little_endian_float)

  Keeps-construct_ldi : (pc w : ℕ) → Keeps (construct_ldi fp pc w)
  unfolding construct_ldi
  Keeps-construct_ldi pc w = search (memory_rules, Keeps-read_little_endian_double)

  Keeps-op_reg_mem : (pc w : ℕ) → Keeps (op_reg_mem fp pc w)
  unfolding op_reg_mem
  Keeps-op_reg_mem pc w =
      search
        (
          memory_rules, Keeps-if-at, Keeps-construct_load_store, Keeps-construct_lwi,
          Keeps-construct_lfi, Keeps-construct_ldi,
        )
        depth 40

  Keeps-decode_class : (c pc w : ℕ) → Keeps (decode_class fp c pc w)
  unfolding decode_class
  Keeps-decode_class c pc w =
      search
        (
          memory_rules, Keeps-op_gen_reg, Keeps-op_int_reg, Keeps-op_ctrl_reg, Keeps-op_sys_reg,
          Keeps-op_systrap, Keeps-op_misc, Keeps-op_jral, Keeps-op_jump, Keeps-op_reg_mem,
          Keeps-op_bit_test, Keeps-op_stack, Keeps-op_conditional_set, Keeps-op_fp_reg,
        )
        depth 40

  pub Keeps-fetch_and_decode : Keeps (fetch_and_decode fp)
  unfolding fetch_and_decode fetch_instruction
  Keeps-fetch_and_decode = search (memory_rules, Keeps-decode_class) depth 12
