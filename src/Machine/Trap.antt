-- ===== src/Machine/Trap.antt =====
-- loader/skl.cpp: software and hardware traps.
use oberon.Prelude.{ℕ, ◌+◌, ◌*◌, ◌/◌, ◌^◌, ◌<◌, ◌≡◌, refl, true, bit_and, bit_or, arith}
use oberon.Prelude.Tests.{ltb, if◌then◌else◌}
use oberon.Machine.State.{
  Machine, M, returns, halts, fatal, pure, halt, ◌>>=◌, ◌>>◌, assert, undefined,
}
use oberon.Machine.Register.{
  cr0, cr1, cr2, cr5, retadr, with_pc, with_integer, with_control, with_exception,
  write_integer_register, program_counter, set_program_counter, set_exception_raised,
  n_control_registers,
}

-- The trap types of control_register_2_t that are raised.
pub data HardwareTrap : Type 0 where
  invalid_opcode bad_alignment out_of_bounds_read out_of_bounds_write divide_by_zero : HardwareTrap

-- Bits 4..2 of CR2, pre-shifted.
abbrev pub trap_code : HardwareTrap → ℕ
trap_code invalid_opcode = 0 * 2 ^ 2
trap_code bad_alignment = 2 * 2 ^ 2
trap_code out_of_bounds_read = 3 * 2 ^ 2
trap_code out_of_bounds_write = 4 * 2 ^ 2
trap_code divide_by_zero = 5 * 2 ^ 2

-- The array `CR_` has six elements; past it an access is undefined.
unfoldable pub read_control_register : ℕ → M ℕ
read_control_register regno = do
  assert (ltb regno n_control_registers)
  (λ m. if ltb regno n_control_registers then returns (m.cpu.cr regno) m else halts undefined)

unfoldable pub write_control_register : ℕ → ℕ → M (Unit {0})
write_control_register regno value = do
  assert (ltb regno n_control_registers)
  (λ m.
      if ltb regno n_control_registers
      then returns tt (with_control regno value m)
      else halts undefined)

unfoldable pub software_trap : ℕ → M (Unit {0})
unfolding read_control_register
software_trap trap = do
  write_integer_register 1 trap
  pc ← program_counter
  write_integer_register 31 pc
  handler ← read_control_register cr5
  set_program_counter handler
  set_exception_raised true

-- The `Active` field of CR2 for a new trap. A trap inside a trap ends the program.
unfoldable pub process_cr2_active : M ℕ
unfolding read_control_register
process_cr2_active = do
  status ← read_control_register cr2
  let active = bit_and (status / 2 ^ 5) 3 + 1
  if ltb active 2 then pure (active * 2 ^ 5) else halt fatal

unfoldable pub hardware_trap : HardwareTrap → M (Unit {0})
unfolding process_cr2_active read_control_register write_control_register
hardware_trap trap = do
  active ← process_cr2_active
  pc ← program_counter
  write_control_register cr0 pc
  write_control_register cr2 (bit_or (bit_or (bit_or active (trap_code trap)) (0 * 2 ^ 1)) 1)
  handler ← read_control_register cr1
  set_program_counter handler
  set_exception_raised true

-- No hardware trap is being handled.
abbrev pub IsIdle : Machine → Type 0
IsIdle m = bit_and (m.cpu.cr cr2 / 2 ^ 5) 3 ≡ 0

-- The state after a hardware trap: CR0 and CR2 say where and why, and control is at the handler
-- in CR1.
abbrev pub trapped : HardwareTrap → Machine → Machine
trapped trap m = with_exception true (
    with_pc (m.cpu.cr cr1) (
      with_control cr2 (bit_or (bit_or (bit_or 32 (trap_code trap)) 0) 1)
        (with_control cr0 m.cpu.pc m)))

-- The state after a software trap.
abbrev pub software_trapped : ℕ → Machine → Machine
software_trapped trap m =
    with_exception true
      (with_pc (m.cpu.cr cr5) (with_integer retadr m.cpu.pc (with_integer 1 trap m)))

pub software_trap_lem :
    (trap : ℕ) (m : Machine) → software_trap trap m ≡ returns tt (software_trapped trap m)
unfolding software_trap
software_trap_lem trap m = refl

pub hardware_trap_lem :
    (trap : HardwareTrap) (m : Machine)
    → IsIdle m
    → hardware_trap trap m ≡ returns tt (trapped trap m)
unfolding hardware_trap
hardware_trap_lem trap m idle = ground arith

pub hardware_trap_nested :
    (trap : HardwareTrap) (m : Machine)
    → 0 < bit_and (m.cpu.cr cr2 / 2 ^ 5) 3
    → hardware_trap trap m ≡ halts fatal
unfolding hardware_trap
hardware_trap_nested trap m h = ground arith
