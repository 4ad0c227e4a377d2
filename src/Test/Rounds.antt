-- ===== src/Test/Rounds.antt =====
-- The theorems on rounds of the loop at the sample machine.
use oberon.Prelude.{◌≡◌, refl, arith, true, none, some}
use oberon.Prelude.Tests.{◌==◌, if◌then◌else◌}
use oberon.Machine.State.{Machine, fatal}
use oberon.Machine.Register.{with_pc, with_exception}
use oberon.Instruction.Stack.{push}
use oberon.Decode.{stack}
use oberon.Execute.{Cache, Emulator, running, stopped, round, rounds}
use oberon.Execute.Fetch.{round_outside}
use oberon.Execute.Stuck.{IsStuck, push_never_left}
use oberon.Test.{machine, machine_memory, whole_numbers, no_service}

abbrev empty : Cache
empty k = none

-- The machine at an address outside the memory, and in a memory of ones.
abbrev lost : Machine
lost = with_pc 100 machine

abbrev ones : Machine
ones = record machine { bytes = λ p. 255 }

round_outside_example :
    round whole_numbers no_service (record { machine = lost; cache = empty; next = none })
    ≡ stopped fatal
round_outside_example = round_outside whole_numbers no_service lost empty refl refl refl

-- The machine at a cached PUSH after a trap.
abbrev at_push : Emulator
at_push = record {
  machine = with_exception true machine;
  cache = λ k.
      if k == 0 then some (record { pc = 4096; body = stack (push 1); next = some 0 }) else none;
  next = some 0;
}

at_push-IsStuck : IsStuck 1 0 4096 at_push
at_push-IsStuck = record {
  has = machine_memory;
  inside = ground arith;
  at = refl;
  raised = refl;
  r0 = refl;
  next = refl;
  object = refl;
}

push_never_left_example :
    (e : Emulator) × (rounds whole_numbers no_service 1000 at_push ≡ running e) × IsStuck 1 0 4096 e
push_never_left_example =
    push_never_left whole_numbers no_service 1 0 4096 1000 at_push at_push-IsStuck
