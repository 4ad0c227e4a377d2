-- ===== src/Instruction/Stack/Push.antt =====
-- loader/skl_stack.cpp: a word that is pushed is popped.
use oberon.Prelude.{ℕ, ◌%◌, ◌^◌, ◌≤◌, ◌<◌, ◌≡◌, ◌∙◌, refl, arith, false}
use oberon.Prelude.Word.{add32, sub32}
use oberon.Ieee.{Ieee}
use oberon.Machine.State.{Machine, returns, ◌>>◌, returns->>}
use oberon.Machine.Register.{sp, update, with_pc, with_integer}
use oberon.Machine.Memory.{load4}
use oberon.Machine.Bounds.{HasMemory, InMemory, read_word, write_word}
use oberon.Machine.RoundTrip.{stored, load4-store4}
use oberon.Instruction.Stack.{push, pop, push_word, pop_word, interpret_stack}

-- The word below the top of the stack lies in the memory, and no trap is raised.
pub record HasRoom (m : Machine) : Type 0 where
  pub has : HasMemory m
  pub above_word : 4 ≤ m.cpu.r sp
  pub top_small : m.cpu.r sp < 2 ^ 32
  pub inside : InMemory m.memory (sub32 (m.cpu.r sp) 4) 4
  pub running : m.cpu.exception_raised ≡ false

abbrev pub pushed_word : ℕ → Machine → Machine
pushed_word v m = with_integer sp (sub32 (m.cpu.r sp) 4) (stored (sub32 (m.cpu.r sp) 4) v m)

module _ {m : Machine} (room : HasRoom m) (v : ℕ) where
  pub push_word_lem : push_word v m ≡ returns tt (pushed_word v m)
  unfolding push_word
  push_word_lem = rw (write_word m room.has (sub32 (m.cpu.r sp) 4) v room.inside, room.running) refl

pub pop_word_lem :
    (m : Machine)
    → HasMemory m
    → InMemory m.memory (m.cpu.r sp) 4
    → m.cpu.exception_raised ≡ false
    → pop_word m ≡ returns (load4 m.bytes (m.cpu.r sp)) (with_integer sp (add32 (m.cpu.r sp) 4) m)
unfolding pop_word
pop_word_lem m has inside running = rw (read_word m has (m.cpu.r sp) inside, running) refl

-- PUSH of the register `rs`.
abbrev pub pushed : ℕ → Machine → Machine
pushed rs m = with_pc (add32 m.cpu.pc 4) (pushed_word (m.cpu.r rs) m)

-- The machine after PUSH rs and POP rd: `rs` is copied to `rd` and, unless it is `rd`, the stack
-- pointer is what it was.
abbrev pub moved : ℕ → ℕ → Machine → Machine
moved rs rd m =
    with_pc (add32 (add32 m.cpu.pc 4) 4)
      (with_integer rd (m.cpu.r rs) (stored (sub32 (m.cpu.r sp) 4) (m.cpu.r rs) m))

-- The register file is the same after the stack pointer is moved down and up.
sp_restored :
    (r : ℕ → ℕ)
    → 4 ≤ r sp
    → r sp < 2 ^ 32
    → update (update r sp (sub32 (r sp) 4)) sp (add32 (sub32 (r sp) 4) 4) ≡ r
sp_restored r lo hi i q = at q i
  where
    at : (q : ℕ) → update (update r sp (sub32 (r sp) 4)) sp (add32 (sub32 (r sp) 4) 4) q ≡ r q
    at q = ground arith

module _ (fp : Ieee) {m : Machine} (room : HasRoom m) (rs rd : ℕ) (word : m.cpu.r rs < 2 ^ 32) where
  abbrev v : ℕ
  v = m.cpu.r rs

  abbrev below : ℕ
  below = sub32 (m.cpu.r sp) 4

  fits : m.cpu.r rs % 2 ^ 32 ≡ m.cpu.r rs
  fits = ground arith

  push_lem : interpret_stack fp (push rs) m ≡ returns tt (pushed rs m)
  unfolding interpret_stack
  push_lem = rw (push_word_lem room (m.cpu.r rs), room.running) refl

  pop_lem : interpret_stack fp (pop rd) (pushed rs m) ≡ returns tt (moved rs rd m)
  unfolding interpret_stack
  pop_lem =
      rw
        (
          pop_word_lem (pushed rs m) room.has room.inside room.running,
          load4-store4 m.bytes below v,
          room.running,
          fits,
          sp_restored m.cpu.r room.above_word room.top_small,
        )
        refl

  -- In a machine with room on the stack and no trap raised, PUSH of a register that holds a 32-bit
  -- value followed by POP into a register copies the value, leaves every other register as it was,
  -- also the stack pointer unless POP names it, which then holds the value itself, and moves the
  -- program counter over the two instructions.
  pub push_then_pop :
      (interpret_stack fp (push rs) >> interpret_stack fp (pop rd)) m ≡ returns tt (moved rs rd m)
  push_then_pop =
      returns->> (interpret_stack fp (push rs)) (interpret_stack fp (pop rd)) push_lem ∙ pop_lem
