-- ===== src/Execute/Reset.antt =====
-- loader/skl.cpp: the loop resets register 0 before each instruction.
use oberon.Prelude.{ℕ, ◌≡◌, refl, arith, inl, inr}
use oberon.Prelude.Tests.{◌==◌, Bool-cases, if◌then◌else◌}
use oberon.Machine.State.{Machine, returns}
use oberon.Machine.Register.{with_integer}
use oberon.Machine.Keeps.{place}
use oberon.Execute.{reset_r0}

abbrev pub reset : Machine → Machine
reset m = if m.cpu.r 0 == 0 then m else with_integer 0 0 m

pub reset_r0_lem : (m : Machine) → reset_r0 m ≡ returns tt (reset m)
reset_r0_lem m = elim (Bool-cases (m.cpu.r 0 == 0)) [
  | inl zero ↦ rw zero refl
  | inr other ↦ rw other refl
]

pub reset_register : (m : Machine) (q : ℕ) → (reset m).cpu.r q ≡ (if q == 0 then 0 else m.cpu.r q)
reset_register m q = elim (Bool-cases (m.cpu.r 0 == 0)) [
  | inl zero ↦ rw zero (ground arith)
  | inr other ↦ rw other (ground arith)
]

pub reset_pc : (m : Machine) → (reset m).cpu.pc ≡ m.cpu.pc
reset_pc m = elim (Bool-cases (m.cpu.r 0 == 0)) [
  | inl zero ↦ rw zero refl
  | inr other ↦ rw other refl
]

pub place-reset : (m : Machine) → place (reset m) ≡ place m
place-reset m = elim (Bool-cases (m.cpu.r 0 == 0)) [
  | inl zero ↦ rw zero refl
  | inr other ↦ rw other refl
]
