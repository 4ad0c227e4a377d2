-- ===== src/Execute/Processor.antt =====
-- loader/skl.cpp: a processor that fetches and decodes every instruction.
use oberon.Prelude.{ℕ, zero, suc, ◌<◌, ◌≡◌, Option, none, some}
use oberon.Prelude.Tests.{◌==◌}
use oberon.Ieee.{Ieee}
use oberon.Machine.State.{M, Machine, returns, pure, assert, ◌>>=◌, ◌>>◌}
use oberon.Machine.Register.{cr1, program_counter, increment_instruction_count}
use oberon.Machine.Trap.{read_control_register}
use oberon.Decode.{Instruction, interpret, fetch_and_decode}
use oberon.Execute.{reset_r0}
use oberon.Execute.Reset.{reset}

-- The trap of an invalid opcode has set the program counter.
abbrev handled : M (Unit {0})
handled = do handler ← read_control_register cr1; pc ← program_counter; assert (pc == handler)

module _ (fp : Ieee) (service : ℕ → ℕ → M (Unit {0})) where
  -- An instruction without the cache.
  abbrev pub executed : Instruction → M (Unit {0})
  executed i = interpret fp service i >> increment_instruction_count

  abbrev pub decoded_step : Option Instruction → M (Unit {0})
  decoded_step none = handled
  decoded_step (some i) = executed i

  -- One step of a processor without a cache.
  abbrev pub uncached : M (Unit {0})
  uncached = reset_r0 >> (fetch_and_decode fp >>= decoded_step)

  abbrev pub uncached_steps : ℕ → M (Unit {0})
  uncached_steps zero = pure tt
  uncached_steps (suc n) = uncached >> uncached_steps n

  -- For `n` steps of the processor without a cache each fetch decodes the instruction that `code` has
  -- at the program counter, which is not 0, and leaves the machine as it is.
  abbrev pub IsFixed : (ℕ → Instruction) → ℕ → Machine → Type 0
  IsFixed code zero m = Unit {0}
  IsFixed code (suc n) m =
      (fetch_and_decode fp (reset m) ≡ returns (some (code m.cpu.pc)) (reset m))
      × (0 < m.cpu.pc)
      × ((m' : Machine) → uncached m ≡ returns tt m' → IsFixed code n m')
