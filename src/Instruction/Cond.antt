-- ===== src/Instruction/Cond.antt =====
-- loader/skl_cond.cpp: the conditional set instructions.
use oberon.Prelude.{ℕ, Bool, Option, none, some}
use oberon.Prelude.Tests.{◌==◌, if◌then◌else◌, bool_to_nat}
use oberon.Shift.{field}
use oberon.Flags.{
  relation_eq, relation_ne, relation_lt, relation_ge, relation_le, relation_gt, relation_ltu,
  relation_geu, relation_leu, relation_gtu,
}
use oberon.Machine.State.{M, pure, halt, internal_error, ◌>>=◌, ◌>>◌}
use oberon.Machine.Register.{read_integer_register, write_integer_register, increment_pc}

-- The ten relations, in the order of loader/skl_cond_opc.h and loader/skl_jump_opc.h.
pub data Relation : Type 0 where
  eq ne lt ge le gt ltu geu leu gtu : Relation

unfoldable pub relation : Relation → ℕ → Bool
unfolding relation_eq relation_ne relation_lt relation_ge relation_le relation_gt relation_ltu
    relation_geu relation_leu relation_gtu
relation eq = relation_eq
relation ne = relation_ne
relation lt = relation_lt
relation ge = relation_ge
relation le = relation_le
relation gt = relation_gt
relation ltu = relation_ltu
relation geu = relation_geu
relation leu = relation_leu
relation gtu = relation_gtu

abbrev pub relation_of : ℕ → Option Relation
relation_of n =
    if n == 0
    then some eq
    else if n == 1
    then some ne
    else if n == 2
    then some lt
    else if n == 3
    then some ge
    else if n == 4
    then some le
    else if n == 5
    then some gt
    else if n == 6
    then some ltu
    else if n == 7
    then some geu
    else if n == 8
    then some leu
    else if n == 9
    then some gtu
    else none

-- skl_conditional_set_t.
pub record CondSet : Type 0 where
  pub opc : Relation
  pub rd : ℕ
  pub r0 : ℕ

unfoldable pub interpret_cond_set : CondSet → M (Unit {0})
interpret_cond_set i = do
  r0v ← read_integer_register i.r0
  let value = relation i.opc r0v
  write_integer_register i.rd (bool_to_nat value)
  increment_pc 1

unfoldable pub op_conditional_set : ℕ → M CondSet
unfolding field
op_conditional_set inst = elim (relation_of (field inst 4 0)) [
  | none ↦ halt internal_error
  | some opc ↦ pure (record { opc = opc; rd = field inst 25 21; r0 = field inst 20 16 })
]
