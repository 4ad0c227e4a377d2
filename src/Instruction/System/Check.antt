-- ===== src/Instruction/System/Check.antt =====
-- loader/skl_systrap.cpp: which values the run-time checks let pass.
use oberon.Prelude.{ℕ, ◌^◌, ◌<◌, ◌≡◌, refl, arith, true, Bool, ◌&&◌, not}
use oberon.Prelude.Tests.{◌==◌, ltb, if◌then◌else◌}
use oberon.Prelude.Word.{add32, int8, int16, pattern32}
use oberon.Machine.State.{Machine, returns}
use oberon.Machine.Register.{with_pc}
use oberon.Machine.Trap.{software_trapped, software_trap_lem}
use oberon.Instruction.System.{
  SysTrap, TrapTest, nil, range_sint, range_int, range_lint, range_bitset, array, passes,
  interpret_systrap,
}

-- What each check is for, on 32-bit values: a pointer is not NIL; a value is kept when it is narrowed
-- to 8 or to 16 bits and extended again; an element of a set; an index that is not negative and below
-- the length.
abbrev pub sound : TrapTest → ℕ → ℕ → Bool
sound nil r0 rd = not (r0 == 0)
sound range_sint r0 rd = pattern32 (int8 r0) == r0
sound range_int r0 rd = pattern32 (int16 r0) == r0
sound range_lint r0 rd = true
sound range_bitset r0 rd = ltb r0 32
sound array r0 rd = ltb r0 (2 ^ 31) && ltb r0 rd

passes-sound : (test : TrapTest) (r0 rd : ℕ) → r0 < 2 ^ 32 → passes test r0 rd ≡ sound test r0 rd
unfolding passes
passes-sound nil r0 rd h = refl
passes-sound range_sint r0 rd h = ground arith
passes-sound range_int r0 rd h = ground arith
passes-sound range_lint r0 rd h = refl
passes-sound range_bitset r0 rd h = ground arith
passes-sound array r0 rd h = ground arith

-- A run-time check of a 32-bit value goes on to the next instruction when the value is one that
-- the check is for, and otherwise raises the software trap of its number, which saves the address
-- of the check in the register of return addresses.
pub check_decides :
    (i : SysTrap) (m : Machine)
    → m.cpu.r i.r0 < 2 ^ 32
    → interpret_systrap i m ≡ (
        if sound i.test (m.cpu.r i.r0) (m.cpu.r i.rd)
        then returns tt (with_pc (add32 m.cpu.pc 4) m)
        else returns tt (software_trapped i.opc m))
unfolding interpret_systrap
check_decides i m h =
    rw (passes-sound i.test (m.cpu.r i.r0) (m.cpu.r i.rd) h)
      (ground (arith, software_trap_lem i.opc m))
