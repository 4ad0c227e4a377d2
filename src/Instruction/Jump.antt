-- ===== src/Instruction/Jump.antt =====
-- loader/skl_jump.cpp and loader/skl_jral.cpp: jumps. The operand word of a jump is read once, when
-- the instruction is decoded.
pub mod Call
use oberon.Prelude.{ℕ, ◌*◌, Bool, false, none, some}
use oberon.Prelude.Tests.{◌==◌, if◌then◌else◌}
use oberon.Prelude.Word.{add32}
use oberon.Shift.{field}
use oberon.Machine.State.{M, pure, halt, not_implemented, assert, ◌>>=◌, ◌>>◌}
use oberon.Machine.Register.{
  read_integer_register, write_integer_register, increment_pc, set_program_counter, retadr,
}
use oberon.Machine.Memory.{read}
use oberon.Instruction.Cond.{Relation, relation, relation_of}

-- skl_conditional_jump_t, skl_jump_t and skl_jal_t.
pub data Jump : Type 0 where
  conditional : (opc : Relation) (r0 addr destination : ℕ) → Jump
  jump : (addr destination : ℕ) → Jump
  jal : (rd destination return_addr : ℕ) → Jump

-- skl_conditional_jump_t::epilog.
unfoldable pub jump_epilog : ℕ → Bool → M (Unit {0})
jump_epilog destination compare =
    if compare then set_program_counter destination else increment_pc 2

unfoldable pub interpret_jump : Jump → M (Unit {0})
unfolding jump_epilog
interpret_jump (conditional opc r0 addr destination) = do
  flags ← read_integer_register r0
  jump_epilog destination (relation opc flags)
interpret_jump (jump addr destination) = set_program_counter destination
interpret_jump (jal rd destination return_addr) = do
  write_integer_register retadr return_addr
  set_program_counter destination

-- The constructors.
unfoldable pub construct_conditional : Relation → ℕ → ℕ → M Jump
unfolding field
construct_conditional opc pc inst = do
  addr ← read (add32 pc 4) false 4
  pure (conditional opc (field inst 20 16) addr (add32 (add32 pc (2 * 4)) addr))

unfoldable pub construct_jump : ℕ → M Jump
construct_jump pc = do
  addr ← read (add32 pc 4) false 4
  pure (jump addr (add32 (add32 pc (2 * 4)) addr))

unfoldable pub construct_jal : ℕ → ℕ → M Jump
unfolding field
construct_jal pc inst = do
  destination ← read (add32 pc 4) false 4
  assert (field inst 25 21 == retadr)
  pure (jal (field inst 25 21) destination (add32 pc (2 * 4)))

unfoldable pub op_jump : ℕ → ℕ → M Jump
unfolding field construct_conditional construct_jump construct_jal
op_jump pc inst =
    let opc = field inst 4 0 in
    elim (relation_of opc) [
      | some relation ↦ construct_conditional relation pc inst
      | none ↦
          if opc == 10
          then construct_jump pc
          else if opc == 11
          then construct_jal pc inst
          else halt not_implemented
    ]

-- skl_jral_t.
pub record Jral : Type 0 where
  pub rd : ℕ
  pub r0 : ℕ
  pub return_addr : ℕ

unfoldable pub interpret_jral : Jral → M (Unit {0})
interpret_jral i = do
  new_pc ← read_integer_register i.r0
  write_integer_register i.rd i.return_addr
  set_program_counter new_pc

unfoldable pub op_jral : ℕ → ℕ → M Jral
unfolding field
op_jral pc inst =
    pure (record { rd = field inst 25 21; r0 = field inst 20 16; return_addr = add32 pc 4 })
