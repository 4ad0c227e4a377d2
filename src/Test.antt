-- ===== src/Test.antt =====
-- Sample values of the model: a floating-point unit that computes on small whole numbers, and a
-- machine at rest.
pub mod Numbers
pub mod Memories
pub mod Instructions
pub mod Rounds
pub mod Heaps
pub mod Files
pub mod Steps
pub mod Modules
pub mod Loading
use oberon.Prelude.{ℕ, ◌+◌, ◌-◌, ◌*◌, ◌/◌, arith, some, false}
use oberon.Prelude.Tests.{◌==◌, ltb, if◌then◌else◌}
use oberon.Prelude.Int.{pos_part}
use oberon.Ieee.{Ieee}
use oberon.Machine.Bounds.{HasMemory}
use oberon.Machine.State.{Machine, M, alpha, pure}

abbrev pub whole_numbers : Ieee
whole_numbers = record {
  add = λ a b. a + b;
  sub = λ a b. a - b;
  mul = λ a b. a * b;
  div = λ a b. a / b;
  fabs = λ a. a;
  lt = ltb;
  eq = λ a b. a == b;
  of_int32 = pos_part;
  of_uint32 = λ a. a;
  to_uint32 = some;
  of_float = λ a. a;
  to_float = λ a. a;
  atan = λ a. a;
  cos = λ a. a;
  exp = λ a. a;
  log = λ a. a;
  sin = λ a. a;
  sqrt = λ a. a;
  tan = λ a. a;
}

-- No service of the virtual machine does anything.
abbrev pub no_service : ℕ → ℕ → M (Unit {0})
no_service subcode address = pure tt

-- r1 = 7, r2 = 5, frame pointer 5000, stack pointer 6000, return address 4660, and a pointer in r8.
abbrev pub registers : ℕ → ℕ
registers i =
    if i == 1
    then 7
    else if i == 2
    then 5
    else if i == 8
    then 5000
    else if i == 29
    then 5000
    else if i == 30
    then 6000
    else if i == 31
    then 4660
    else 0

-- 4096 bytes of memory at 4096, all zero, and a handler of hardware traps at 4200.
abbrev pub machine : Machine
machine = record {
  cpu = record {
    pc = 4096;
    instruction_count = 0;
    cr = λ i. if i == 1 then 4200 else 0;
    r = registers;
    f = λ i. if i == 1 then 4607182418800017408 else 0;
    exception_raised = false;
  };
  memory = record { beg = 4096; end = 8192; n_bytes = 4096 };
  block = record { base = 4096; size = 4096 };
  bytes = λ p. 0;
  build = alpha;
}

pub machine_memory : HasMemory machine
machine_memory = record {
  not_nil = omega arith;
  below = omega arith;
  above = omega arith;
  small = omega arith;
}

-- The machine with pointers outside the memory.
abbrev pub stray : Machine
stray = record machine { cpu = record machine.cpu { r = λ i. if i == 0 then 0 else 100 } }
