-- ===== src/Machine/Unmoved.antt =====
-- loader/skl.h and loader/skl.cpp: the accessors, the traps and the access to memory keep the bounds of
-- the memory.
use oberon.Prelude.{ℕ, Bool, none, some}
use oberon.Prelude.Tests.{ltb, if◌then◌else◌}
use oberon.Machine.State.{Machine, returns, M, pure, ◌>>◌, assert}
use oberon.Machine.Register.{
  n_control_registers, read_integer_register, write_integer_register, read_real_register,
  write_real_register, program_counter, set_program_counter, increment_pc, instruction_count,
  increment_instruction_count, exception_raised, set_exception_raised,
}
use oberon.Machine.Trap.{
  out_of_bounds_read, out_of_bounds_write, HardwareTrap, read_control_register,
  write_control_register, software_trap, process_cr2_active, hardware_trap,
}
use oberon.Machine.Memory.{
  ignored, address_valid, within, with_bytes, Haddr, at_host, read_1_se, read_1_ze, read_2_se,
  read_2_ze, read_4_se, read_4_ze, write_1, write_2, write_4, read_sized, write_sized, read, write,
}
use oberon.Machine.Keeps.{
  Stays-if, Keeps, Keeps-pure, Keeps-halt, Keeps-defined, Keeps-if, Keeps-look, Keeps-update,
  Keeps-assert, Keeps-bind, Keeps-then,
}

pub Keeps-read_integer_register : (i : ℕ) → Keeps (read_integer_register i)
Keeps-read_integer_register i = record { at = λ p m e. e }

pub Keeps-write_integer_register : (i v : ℕ) → Keeps (write_integer_register i v)
Keeps-write_integer_register i v = record { at = λ p m e. e }

pub Keeps-read_real_register : (i : ℕ) → Keeps (read_real_register i)
Keeps-read_real_register i = record { at = λ p m e. e }

pub Keeps-write_real_register : (i v : ℕ) → Keeps (write_real_register i v)
Keeps-write_real_register i v = record { at = λ p m e. e }

pub Keeps-program_counter : Keeps program_counter
Keeps-program_counter = record { at = λ p m e. e }

pub Keeps-set_program_counter : (a : ℕ) → Keeps (set_program_counter a)
Keeps-set_program_counter a = record { at = λ p m e. e }

pub Keeps-increment_pc : (n : ℕ) → Keeps (increment_pc n)
Keeps-increment_pc n = record { at = λ p m e. e }

pub Keeps-instruction_count : Keeps instruction_count
Keeps-instruction_count = record { at = λ p m e. e }

pub Keeps-increment_instruction_count : Keeps increment_instruction_count
Keeps-increment_instruction_count = record { at = λ p m e. e }

pub Keeps-exception_raised : Keeps exception_raised
Keeps-exception_raised = record { at = λ p m e. e }

pub Keeps-set_exception_raised : (b : Bool) → Keeps (set_exception_raised b)
Keeps-set_exception_raised b = record { at = λ p m e. e }

pub ruleset register_rules = (
  Keeps-pure, Keeps-halt, Keeps-defined, Keeps-if, Keeps-assert, Keeps-bind, Keeps-then,
  Keeps-read_integer_register, Keeps-write_integer_register, Keeps-read_real_register,
  Keeps-write_real_register, Keeps-program_counter, Keeps-set_program_counter, Keeps-increment_pc,
  Keeps-instruction_count, Keeps-increment_instruction_count, Keeps-exception_raised,
  Keeps-set_exception_raised,
)

pub Keeps-read_control_register : (i : ℕ) → Keeps (read_control_register i)
unfolding read_control_register
Keeps-read_control_register i =
    Keeps-then (assert (ltb i n_control_registers)) _ (Keeps-assert _)
      (record { at = λ p m e. Stays-if p (ltb i n_control_registers) _ _ e tt })

pub Keeps-write_control_register : (i v : ℕ) → Keeps (write_control_register i v)
unfolding write_control_register
Keeps-write_control_register i v =
    Keeps-then (assert (ltb i n_control_registers)) _ (Keeps-assert _)
      (record { at = λ p m e. Stays-if p (ltb i n_control_registers) _ _ e tt })

pub ruleset control_rules =
    (register_rules, Keeps-read_control_register, Keeps-write_control_register)

pub Keeps-software_trap : (t : ℕ) → Keeps (software_trap t)
unfolding software_trap
Keeps-software_trap t = search control_rules

pub Keeps-process_cr2_active : Keeps process_cr2_active
unfolding process_cr2_active
Keeps-process_cr2_active = search control_rules

pub Keeps-hardware_trap : (t : HardwareTrap) → Keeps (hardware_trap t)
unfolding hardware_trap
Keeps-hardware_trap t = search (control_rules, Keeps-process_cr2_active)

-- The access to a host address, and what is built on it.
pub Keeps-at_host :
    {A : Type 0} (h : Haddr) (n : ℕ) (access : ℕ → M A)
    → ((a : ℕ) → Keeps (access a))
    → Keeps (at_host h n access)
Keeps-at_host none n access k = record { at = λ p m e. tt }
Keeps-at_host (some a) n access k = record {
  at = λ p m e. Stays-if p (within m.block a n) _ _ ((k a).at p m e) tt;
}

Keeps-reads : {A : Type 0} (f : Machine → A) → Keeps (λ m. returns (f m) m)
Keeps-reads f = record { at = λ p m e. e }

pub Keeps-read_1_se : (h : Haddr) → Keeps (read_1_se h)
unfolding read_1_se
Keeps-read_1_se h = Keeps-at_host h 1 _ (λ a. Keeps-reads _)

pub Keeps-read_1_ze : (h : Haddr) → Keeps (read_1_ze h)
unfolding read_1_ze
Keeps-read_1_ze h = Keeps-at_host h 1 _ (λ a. Keeps-reads _)

pub Keeps-read_2_se : (h : Haddr) → Keeps (read_2_se h)
unfolding read_2_se
Keeps-read_2_se h = Keeps-at_host h 2 _ (λ a. Keeps-reads _)

pub Keeps-read_2_ze : (h : Haddr) → Keeps (read_2_ze h)
unfolding read_2_ze
Keeps-read_2_ze h = Keeps-at_host h 2 _ (λ a. Keeps-reads _)

pub Keeps-read_4_se : (h : Haddr) → Keeps (read_4_se h)
unfolding read_4_se
Keeps-read_4_se h = Keeps-at_host h 4 _ (λ a. Keeps-reads _)

pub Keeps-read_4_ze : (h : Haddr) → Keeps (read_4_ze h)
unfolding read_4_ze
Keeps-read_4_ze h = Keeps-at_host h 4 _ (λ a. Keeps-reads _)

Keeps-writes : (f : Machine → ℕ → ℕ) → Keeps (λ m. returns tt (with_bytes (f m) m))
Keeps-writes f = record { at = λ p m e. e }

pub Keeps-write_1 : (h : Haddr) (v : ℕ) → Keeps (write_1 h v)
unfolding write_1
Keeps-write_1 h v = Keeps-at_host h 1 _ (λ a. Keeps-writes _)

pub Keeps-write_2 : (h : Haddr) (v : ℕ) → Keeps (write_2 h v)
unfolding write_2
Keeps-write_2 h v = Keeps-at_host h 2 _ (λ a. Keeps-writes _)

pub Keeps-write_4 : (h : Haddr) (v : ℕ) → Keeps (write_4 h v)
unfolding write_4
Keeps-write_4 h v = Keeps-at_host h 4 _ (λ a. Keeps-writes _)

pub ruleset access_rules = (
  control_rules, Keeps-hardware_trap, Keeps-software_trap, Keeps-read_1_se, Keeps-read_1_ze,
  Keeps-read_2_se, Keeps-read_2_ze, Keeps-read_4_se, Keeps-read_4_ze, Keeps-write_1, Keeps-write_2,
  Keeps-write_4,
)

pub Keeps-read_sized : (a : ℕ) (b : Bool) (n : ℕ) → Keeps (read_sized a b n)
unfolding read_sized
Keeps-read_sized a b n = search access_rules

pub Keeps-write_sized : (a v n : ℕ) → Keeps (write_sized a v n)
unfolding write_sized
Keeps-write_sized a v n = search access_rules

-- An access that first tests its address.
pub Keeps-valid :
    {A : Type 0} (a n : ℕ) (c d : M A)
    → Keeps c
    → Keeps d
    → Keeps (λ m. if address_valid m.memory a n then c m else d m)
Keeps-valid a n c d kc kd = record {
  at = λ p m e. Stays-if p (address_valid m.memory a n) _ _ (kc.at p m e) (kd.at p m e);
}

pub Keeps-read : (a : ℕ) (b : Bool) (n : ℕ) → Keeps (read a b n)
unfolding read
Keeps-read a b n =
    Keeps-valid a n (read_sized a b n) (hardware_trap out_of_bounds_read >> pure ignored)
      (Keeps-read_sized a b n) (search access_rules)

pub Keeps-write : (a v n : ℕ) → Keeps (write a v n)
unfolding write
Keeps-write a v n =
    Keeps-valid a n (write_sized a v n) (hardware_trap out_of_bounds_write)
      (Keeps-write_sized a v n) (search access_rules)

pub ruleset memory_rules = (access_rules, Keeps-read, Keeps-write, Keeps-valid)
