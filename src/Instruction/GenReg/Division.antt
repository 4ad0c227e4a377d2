-- ===== src/Instruction/GenReg/Division.antt =====
-- loader/skl_gen_reg.cpp: DIV and MOD of registers.
use oberon.Prelude.{some, ℕ, ◌^◌, ◌<◌, ◌≡◌, ◌≢◌, refl, arith, true, false}
use oberon.Prelude.Tests.{◌==◌}
use oberon.Prelude.Int.{ℤ, pos}
use oberon.Prelude.Word.{add32, int32, pattern32}
use oberon.O3.{div, modulo}
use oberon.O3.Floor.{IsInt32, IsFloor, NoOverflow, DivMod-floor}
use oberon.Ieee.{Ieee}
use oberon.Machine.State.{Machine, returns}
use oberon.Machine.Register.{cr1, with_pc, with_integer}
use oberon.Machine.Trap.{hardware_trap_lem, divide_by_zero, trapped, IsIdle}
use oberon.Instruction.GenReg.{
  GenReg, rb_integer, rb_double, int_int, real, GenRegOpc, opc_div, opc_mod, interpret_gen_reg,
}

-- DIV and MOD on integer registers, and DIV on real registers.
abbrev pub integer : GenRegOpc → (rd r0 r1 : ℕ) → GenReg
integer opc rd r0 r1 = record {
  kind = int_int;
  opc = opc;
  rd = rd;
  r0 = r0;
  r1 = r1;
  bd = rb_integer;
  b0 = rb_integer;
  b1 = rb_integer;
}

abbrev pub real_div : (rd r0 r1 : ℕ) → GenReg
real_div rd r0 r1 = record {
  kind = real;
  opc = opc_div;
  rd = rd;
  r0 = r0;
  r1 = r1;
  bd = rb_double;
  b0 = rb_double;
  b1 = rb_double;
}

int32-IsInt32 : (w : ℕ) → IsInt32 (int32 w)
int32-IsInt32 w = ground arith

int32-nonzero : (w : ℕ) → w < 2 ^ 32 → w ≢ 0 → int32 w ≢ pos 0
int32-nonzero w small ne = ground arith

==-false : (n : ℕ) → n ≢ 0 → (n == 0) ≡ false
==-false n ne = ground arith

module _ (fp : Ieee) (rd r0 r1 : ℕ) (m : Machine) where
  -- While no hardware trap is handled, a division of integer registers by zero traps, but leaves
  -- the program counter four bytes past the handler in CR1; a division of real registers by zero
  -- leaves it at the handler.
  pub division_by_zero :
      IsIdle m
      → m.cpu.r r1 ≡ 0
      → fp.eq (m.cpu.f r1) 0 ≡ true
      → (interpret_gen_reg fp int_int (integer opc_div rd r0 r1) m
          ≡ returns tt (with_pc (add32 (m.cpu.cr cr1) 4) (trapped divide_by_zero m)))
        × (interpret_gen_reg fp int_int (integer opc_mod rd r0 r1) m
            ≡ returns tt (with_pc (add32 (m.cpu.cr cr1) 4) (trapped divide_by_zero m)))
        × (interpret_gen_reg fp real (real_div rd r0 r1) m ≡ returns tt (trapped divide_by_zero m))
  unfolding interpret_gen_reg
  division_by_zero idle zero_integer zero_real = (
    rw (zero_integer, hardware_trap_lem divide_by_zero m idle) refl,
    rw (zero_integer, hardware_trap_lem divide_by_zero m idle) refl,
    rw (zero_real, hardware_trap_lem divide_by_zero m idle) refl,
  )

  div_stores :
      (q : ℤ)
      → m.cpu.r r1 ≢ 0
      → div (int32 (m.cpu.r r0)) (int32 (m.cpu.r r1)) ≡ some q
      → interpret_gen_reg fp int_int (integer opc_div rd r0 r1) m
        ≡ returns tt (with_pc (add32 m.cpu.pc 4) (with_integer rd (pattern32 q) m))
  unfolding interpret_gen_reg
  div_stores q ne e = rw (==-false _ ne, e) refl

  mod_stores :
      (r : ℤ)
      → m.cpu.r r1 ≢ 0
      → modulo (int32 (m.cpu.r r0)) (int32 (m.cpu.r r1)) ≡ some r
      → interpret_gen_reg fp int_int (integer opc_mod rd r0 r1) m
        ≡ returns tt (with_pc (add32 m.cpu.pc 4) (with_integer rd (pattern32 r) m))
  unfolding interpret_gen_reg
  mod_stores r ne e = rw (==-false _ ne, e) refl

  -- DIV and MOD of two integer registers, the divisor a 32-bit value that is not 0 and no
  -- intermediate value of the division too large, store the quotient and the remainder of the
  -- division that rounds down, and advance over the instruction.
  pub division-IsFloor :
      m.cpu.r r1 < 2 ^ 32
      → m.cpu.r r1 ≢ 0
      → NoOverflow (int32 (m.cpu.r r0)) (int32 (m.cpu.r r1))
      → (q : ℤ) × (r : ℤ) × IsFloor (int32 (m.cpu.r r0)) (int32 (m.cpu.r r1)) q r
        × (interpret_gen_reg fp int_int (integer opc_div rd r0 r1) m
            ≡ returns tt (with_pc (add32 m.cpu.pc 4) (with_integer rd (pattern32 q) m)))
        × (interpret_gen_reg fp int_int (integer opc_mod rd r0 r1) m
            ≡ returns tt (with_pc (add32 m.cpu.pc 4) (with_integer rd (pattern32 r) m)))
  division-IsFloor small1 ne fits =
      let (q, r, dq, dr, fl) =
        DivMod-floor (int32 (m.cpu.r r0)) (int32 (m.cpu.r r1)) (int32-IsInt32 _) (int32-IsInt32 _)
          (int32-nonzero _ small1 ne) fits in
      (q, r, fl, div_stores q ne dq, mod_stores r ne dr)
