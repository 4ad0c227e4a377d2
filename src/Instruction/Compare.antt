-- ===== src/Instruction/Compare.antt =====
-- loader/skl_gen_reg.cpp, loader/skl_cond.cpp and loader/skl_jump.cpp: a comparison, and an
-- instruction that acts on its flags.
use oberon.Prelude.{ℕ, ◌^◌, ◌<◌, ◌≡◌, refl, ap, ◌∙◌, Bool, not, arith, inl, inr}
use oberon.Prelude.Tests.{ltb, leb, ◌==◌, Bool-cases, if◌then◌else◌}
use oberon.Prelude.Int.{ltb_ℤ}
use oberon.Prelude.Word.{int32, add32}
use oberon.Ieee.{Ieee}
use oberon.Flags.{synthesize_flags_int32}
use oberon.Flags.Relation.{relations_of_compare}
use oberon.Machine.State.{M, Machine, returns, ◌>>◌}
use oberon.Machine.Register.{with_integer, with_pc, update_self, increment_instruction_count}
use oberon.Execute.{reset_r0}
use oberon.Execute.Reset.{reset, reset_r0_lem, reset_register, reset_pc}
use oberon.Instruction.GenReg.{GenReg, int_int, opc_cmp, rb_integer, interpret_gen_reg}
use oberon.Instruction.Cond.{Relation, eq, ne, lt, ge, le, gt, ltu, geu, leu, gtu, relation}
use oberon.Instruction.Jump.{conditional, interpret_jump}

-- The relation that a mnemonic names, on the operands of the comparison.
abbrev pub holds : Relation → ℕ → ℕ → Bool
holds eq l r = l == r
holds ne l r = not (l == r)
holds lt l r = ltb_ℤ (int32 l) (int32 r)
holds ge l r = not (ltb_ℤ (int32 l) (int32 r))
holds le l r = not (ltb_ℤ (int32 r) (int32 l))
holds gt l r = ltb_ℤ (int32 r) (int32 l)
holds ltu l r = ltb l r
holds geu l r = leb r l
holds leu l r = leb l r
holds gtu l r = ltb r l

pub relation_lem :
    (ρ : Relation) (l r : ℕ)
    → l < 2 ^ 32
    → r < 2 ^ 32
    → relation ρ (synthesize_flags_int32 l r) ≡ holds ρ l r
unfolding relation
relation_lem eq l r hl hr = (relations_of_compare l r hl hr).0
relation_lem ne l r hl hr = (relations_of_compare l r hl hr).1
relation_lem lt l r hl hr = (relations_of_compare l r hl hr).2
relation_lem ge l r hl hr = (relations_of_compare l r hl hr).3
relation_lem le l r hl hr = (relations_of_compare l r hl hr).4
relation_lem gt l r hl hr = (relations_of_compare l r hl hr).5
relation_lem ltu l r hl hr = (relations_of_compare l r hl hr).6
relation_lem geu l r hl hr = (relations_of_compare l r hl hr).7
relation_lem leu l r hl hr = (relations_of_compare l r hl hr).8
relation_lem gtu l r hl hr = (relations_of_compare l r hl hr).9

-- CMP R0, R1, Rd on integer registers.
abbrev pub compare : ℕ → ℕ → ℕ → GenReg
compare r0 r1 rd = record {
  kind = int_int;
  opc = opc_cmp;
  rd = rd;
  r0 = r0;
  r1 = r1;
  bd = rb_integer;
  b0 = rb_integer;
  b1 = rb_integer;
}

-- What the loop does between two instructions: it counts the first and resets register 0.
abbrev pub between : M (Unit {0})
between = increment_instruction_count >> reset_r0

-- The relation on the flags of the comparison in `rd`. Register 0 has been reset.
abbrev pub decides : Relation → ℕ → ℕ → ℕ → Bool
decides ρ rd l r = if rd == 0 then relation ρ 0 else holds ρ l r

abbrev compared : ℕ → ℕ → ℕ → Machine → Machine
compared r0 r1 rd m =
    with_pc (add32 m.cpu.pc 4)
      (with_integer rd (synthesize_flags_int32 (m.cpu.r r0) (m.cpu.r r1)) m)

interpret_compare :
    (fp : Ieee) (r0 r1 rd : ℕ) (m : Machine)
    → interpret_gen_reg fp int_int (compare r0 r1 rd) m ≡ returns tt (compared r0 r1 rd m)
unfolding interpret_gen_reg
interpret_compare fp r0 r1 rd m = refl

abbrev counted_once : Machine → Machine
counted_once m = record m {
  cpu = record m.cpu { instruction_count = add32 m.cpu.instruction_count 1 };
}

module _ (fp : Ieee) (r0 r1 rd : ℕ) (ρ : Relation) (m : Machine) (small0 : m.cpu.r r0 < 2 ^ 32)
    (small1 : m.cpu.r r1 < 2 ^ 32) where
  flags_hold : relation ρ ((compared r0 r1 rd m).cpu.r rd) ≡ holds ρ (m.cpu.r r0) (m.cpu.r r1)
  flags_hold = (ap (relation ρ) (update_self m.cpu.r rd _)) ∙ relation_lem ρ _ _ small0 small1

  abbrev counted : Machine
  counted = counted_once (compared r0 r1 rd m)

  abbrev after : Machine
  after = reset counted

  decided : relation ρ (after.cpu.r rd) ≡ decides ρ rd (m.cpu.r r0) (m.cpu.r r1)
  decided = ap (relation ρ) (reset_register counted rd) ∙ elim (Bool-cases (rd == 0)) [
    | inl zero_rd ↦ rw (zero_rd) refl
    | inr other ↦ rw (other) flags_hold
  ]

  -- A comparison of two registers that hold 32-bit values and a conditional jump on its flags,
  -- with what the loop does between them, go to the destination if the relation holds of the
  -- registers, and otherwise past the two words of the jump. If the flags go to register 0, the
  -- loop resets them, and the relation is that of flags that are all clear.
  pub compare_then_jump :
      (addr destination : ℕ)
      → (m' : Machine) × ((interpret_gen_reg fp int_int (compare r0 r1 rd)
              >> (between >> interpret_jump (conditional ρ rd addr destination)))
            m
          ≡ returns tt m')
        × (m'.cpu.pc ≡ (
            if decides ρ rd (m.cpu.r r0) (m.cpu.r r1)
            then destination
            else add32 (add32 m.cpu.pc 4) 8))
  unfolding interpret_gen_reg interpret_jump
  compare_then_jump addr destination = (
    with_pc
        (if decides ρ rd (m.cpu.r r0) (m.cpu.r r1) then destination else add32 (add32 m.cpu.pc 4) 8)
        after,
    rw (reset_r0_lem counted) (ground (arith, decided, reset_pc counted)),
    refl,
  )
