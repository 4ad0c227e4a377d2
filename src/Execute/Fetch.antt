-- ===== src/Execute/Fetch.antt =====
-- loader/skl.cpp: the fetch of an instruction that cannot be executed.
use oberon.Prelude.{ℕ, ◌≤◌, ◌≡◌, refl, arith, none, true, false}
use oberon.Prelude.Tests.{◌==◌}
use oberon.Shift.{field}
use oberon.Ieee.{Ieee}
use oberon.Machine.State.{returns, Machine, M, halts, fatal}
use oberon.Machine.Register.{cr1, with_exception}
use oberon.Machine.Trap.{
  read_control_register, hardware_trap, hardware_trap_lem, hardware_trap_nested, invalid_opcode,
  out_of_bounds_read, trapped, IsIdle,
}
use oberon.Machine.Memory.{load4, ignored, address_valid}
use oberon.Machine.Bounds.{HasMemory, InMemory, read_word, read_outside}
use oberon.Decode.{classof, fetch_and_decode}
use oberon.Execute.{running, Cache, stopped, round}

==_refl : (n : ℕ) → (n == n) ≡ true
==_refl n = ground arith

module _ (fp : Ieee) (service : ℕ → ℕ → M (Unit {0})) (m : Machine) where
  ignored_class : classof ignored ≡ 14
  unfolding classof
  ignored_class = refl

  nested :
      hardware_trap invalid_opcode (trapped out_of_bounds_read (with_exception false m))
      ≡ halts fatal
  nested =
      hardware_trap_nested invalid_opcode (trapped out_of_bounds_read (with_exception false m))
        (ground arith)

  fetch_outside :
      address_valid m.memory m.cpu.pc 4 ≡ false → IsIdle m → fetch_and_decode fp m ≡ halts fatal
  unfolding fetch_and_decode
  fetch_outside outside idle =
      rw (read_outside (with_exception false m) m.cpu.pc 4 outside idle false, nested) refl

  -- The word of an instruction, in the memory, is of no class.
  abbrev word : ℕ
  word = load4 m.bytes m.cpu.pc

  class_invalid : 14 ≤ field word 31 26 → classof word ≡ 14
  unfolding classof
  class_invalid high = ground arith

  fetch_invalid :
      HasMemory m
      → InMemory m.memory m.cpu.pc 4
      → 14 ≤ field word 31 26
      → IsIdle m
      → fetch_and_decode fp m ≡ returns none (trapped invalid_opcode (with_exception false m))
  unfolding fetch_and_decode
  fetch_invalid has inside high idle =
      rw
        (
          read_word (with_exception false m) has m.cpu.pc inside,
          class_invalid high,
          hardware_trap_lem invalid_opcode (with_exception false m) idle,
        )
        refl

  -- While no hardware trap is handled and register 0 holds 0, a round of the loop that fetches
  -- from outside the memory ends the program, because the value that the trapped read returns is
  -- decoded and traps again while the first trap is active.
  pub round_outside :
      (cache : Cache)
      → address_valid m.memory m.cpu.pc 4 ≡ false
      → IsIdle m
      → m.cpu.r 0 ≡ 0
      → round fp service (record { machine = m; cache = cache; next = none }) ≡ stopped fatal
  unfolding round
  round_outside cache outside idle r0 = rw (r0, fetch_outside outside idle) refl

  -- While no hardware trap is handled and register 0 holds 0, a round of the loop that fetches a
  -- word of no class from inside the memory raises the trap of an invalid opcode, caches nothing,
  -- and goes on at the handler of hardware traps.
  pub round_invalid :
      (cache : Cache)
      → HasMemory m
      → InMemory m.memory m.cpu.pc 4
      → 14 ≤ field word 31 26
      → IsIdle m
      → m.cpu.r 0 ≡ 0
      → round fp service (record { machine = m; cache = cache; next = none })
        ≡ running (record {
          machine = trapped invalid_opcode (with_exception false m);
          cache = cache;
          next = none;
        })
  unfolding round read_control_register
  round_invalid cache has inside high idle r0 =
      rw (r0, fetch_invalid has inside high idle, ==_refl (m.cpu.cr cr1)) refl
