-- ===== src/Machine/Register.antt =====
-- loader/skl.h: the accessors of the processor's registers. A register number comes from a field
-- of five bits, so the asserts on its range never fail.
use oberon.Prelude.{sym, subst, false, ℕ, ◌*◌, Bool, ◌≡◌, ◌≢◌, arith}
use oberon.Prelude.Tests.{◌==◌, if◌then◌else◌}
use oberon.Prelude.Word.{add32, uint32}
use oberon.Machine.State.{Machine, M, returns}

-- Register numbers with a fixed use.
abbrev pub sfp : ℕ
sfp = 29

abbrev pub sp : ℕ
sp = 30

abbrev pub retadr : ℕ
retadr = 31

-- The control registers that the emulator uses.
abbrev pub cr0 : ℕ
cr0 = 0

abbrev pub cr1 : ℕ
cr1 = 1

abbrev pub cr2 : ℕ
cr2 = 2

abbrev pub cr5 : ℕ
cr5 = 5

abbrev pub n_control_registers : ℕ
n_control_registers = 6

-- A write to one element of a register file.
abbrev pub update : (ℕ → ℕ) → ℕ → ℕ → ℕ → ℕ
update f i v j = if i == j then v else f j

abbrev pub with_pc : ℕ → Machine → Machine
with_pc a m = record m { cpu = record m.cpu { pc = a } }

abbrev pub with_integer : ℕ → ℕ → Machine → Machine
with_integer i v m = record m { cpu = record m.cpu { r = update m.cpu.r i v } }

abbrev pub with_real : ℕ → ℕ → Machine → Machine
with_real i v m = record m { cpu = record m.cpu { f = update m.cpu.f i v } }

abbrev pub with_control : ℕ → ℕ → Machine → Machine
with_control i v m = record m { cpu = record m.cpu { cr = update m.cpu.cr i v } }

abbrev pub with_exception : Bool → Machine → Machine
with_exception b m = record m { cpu = record m.cpu { exception_raised = b } }

abbrev pub increment_words : ℕ → ℕ
increment_words n_words = uint32 (n_words * 4)

abbrev pub read_integer_register : ℕ → M ℕ
read_integer_register regno m = returns (m.cpu.r regno) m

abbrev pub write_integer_register : ℕ → ℕ → M (Unit {0})
write_integer_register regno value m = returns tt (with_integer regno value m)

abbrev pub read_real_register : ℕ → M ℕ
read_real_register regno m = returns (m.cpu.f regno) m

abbrev pub write_real_register : ℕ → ℕ → M (Unit {0})
write_real_register regno value m = returns tt (with_real regno value m)

abbrev pub program_counter : M ℕ
program_counter m = returns m.cpu.pc m

abbrev pub set_program_counter : ℕ → M (Unit {0})
set_program_counter pc m = returns tt (with_pc pc m)

abbrev pub increment_pc : ℕ → M (Unit {0})
increment_pc n_words m = returns tt (with_pc (add32 m.cpu.pc (increment_words n_words)) m)

abbrev pub instruction_count : M ℕ
instruction_count m = returns m.cpu.instruction_count m

abbrev pub increment_instruction_count : M (Unit {0})
increment_instruction_count m =
    returns tt
      (record m { cpu = record m.cpu { instruction_count = add32 m.cpu.instruction_count 1 } })

abbrev pub exception_raised : M Bool
exception_raised m = returns m.cpu.exception_raised m

abbrev pub set_exception_raised : Bool → M (Unit {0})
set_exception_raised value m = returns tt (with_exception value m)

-- What holds of the machine with the mark cleared holds of a machine where it is clear.
pub while_running :
    (P : Machine → Type 0) (m : Machine)
    → m.cpu.exception_raised ≡ false
    → P (with_exception false m)
    → P m
while_running P m e p = subst (λ b. P (with_exception b m)) (sym e) p

pub update_self : (f : ℕ → ℕ) (i v : ℕ) → update f i v i ≡ v
update_self f i v = ground arith

pub update_ne : (f : ℕ → ℕ) (i j v : ℕ) → i ≢ j → update f i v j ≡ f j
update_ne f i j v h = ground arith
