-- ===== src/Test/Steps.antt =====
-- The theorem on the loop without a cache at a cached addition.
use oberon.Prelude.{ℕ, ◌<◌, arith, ◌≡◌, refl, subst, none, some}
use oberon.Prelude.Tests.{◌==◌, if◌then◌else◌}
use oberon.Machine.State.{Machine, alpha, release, returns}
use oberon.Machine.Memory.{read}
use oberon.Decode.{Instruction, gen_reg, interpret, fetch_and_decode}
use oberon.Instruction.GenReg.{int_int, opc_add, rb_integer, op_gen_reg, interpret_gen_reg}
use oberon.Execute.{
  Cached, insert, Emulator, Run, running, stopped, round, rounds, lookup_instruction,
}
use mathlib.Core.Option.{some-injective}
use oberon.Machine.Keeps.{Keeps}
use oberon.Execute.Processor.{uncached_steps, IsFixed}
use oberon.Execute.Coherent.{IsCoherent, AreObjects-insert}
use oberon.Execute.Uncached.{rounds-uncached, rounds-IsCoherent}
use oberon.Test.{machine, whole_numbers, no_service}

-- ADD r3, r1, r2 at the program counter.
abbrev addition : Machine
addition = record machine { bytes = λ p. if p == 4097 then 0x10 else if p == 4098 then 0x61 else 0 }

abbrev add_object : Cached
add_object = record {
  pc = 4096;
  body = gen_reg (record {
    kind = int_int;
    opc = opc_add;
    rd = 3;
    r0 = 1;
    r1 = 2;
    bd = rb_integer;
    b0 = rb_integer;
    b1 = rb_integer;
  });
  next = none;
}

abbrev at_addition : Emulator
at_addition = record { machine = addition; cache = insert (λ k. none) 0 add_object; next = some 0 }

decoded : fetch_and_decode whole_numbers addition ≡ returns (some add_object.body) addition
unfolding fetch_and_decode read op_gen_reg
decoded = refl

abbrev code : ℕ → Instruction
code a = add_object.body

addition-IsFixed : IsFixed whole_numbers no_service code 1 addition
addition-IsFixed = (decoded, omega arith, λ m' e. tt)

at_addition-IsCoherent : IsCoherent 4096 code at_addition
at_addition-IsCoherent = record {
  objects =
      AreObjects-insert 4096 code (λ k. none) 0 add_object (λ k c e. absurd (ground arith))
        (omega arith, refl);
  next = λ k e.
      subst
        (λ j.
          (c : Cached) × (at_addition.cache j ≡ some c)
          × (0 < at_addition.machine.cpu.pc → c.pc ≡ at_addition.machine.cpu.pc))
        (some-injective 0 k e) (add_object, refl, λ positive. refl);
}

no_service-Keeps : (a b : ℕ) → Keeps (no_service a b)
no_service-Keeps a b = record { at = λ p m e. e }

alpha_release : alpha ≡ release → ⊥
alpha_release e = ground arith

abbrev emulator_of : Run → Emulator
emulator_of (running e) = e
emulator_of (stopped h) = at_addition

abbrev added : Emulator
added = emulator_of (rounds whole_numbers no_service 1 at_addition)

one_round : rounds whole_numbers no_service 1 at_addition ≡ running added
unfolding rounds round interpret interpret_gen_reg lookup_instruction
one_round = refl

rounds-uncached_example :
    uncached_steps whole_numbers no_service 1 at_addition.machine ≡ returns tt added.machine
rounds-uncached_example =
    rounds-uncached whole_numbers no_service no_service-Keeps code 1 at_addition
      (λ e. absurd (alpha_release e)) (omega arith) addition-IsFixed at_addition-IsCoherent
      one_round

rounds-IsCoherent_example : IsCoherent 4096 code added
rounds-IsCoherent_example =
    rounds-IsCoherent whole_numbers no_service no_service-Keeps code 1 at_addition
      (λ e. absurd (alpha_release e)) (omega arith) addition-IsFixed at_addition-IsCoherent
      one_round
