-- ===== src/Instruction/Stack/Frame.antt =====
-- loader/skl_stack.cpp: LEAVE undoes ENTER after the body of a procedure.
use oberon.Prelude.{ℕ, ◌+◌, ◌*◌, ◌≤◌, ◌<◌, ◌≡◌, arith, false}
use oberon.Prelude.Word.{add32, sub32, uint32}
use oberon.Machine.State.{returns->>, Machine, BuildType, alpha, beta, release, returns}
use oberon.Machine.Register.{
  with_exception, while_running, increment_pc, sp, retadr, with_pc, with_integer,
}
use oberon.Machine.Memory.{with_bytes}
use oberon.Machine.Bounds.{HasMemory, InMemory, write_word}
use oberon.Machine.RoundTrip.{stored}
use oberon.Instruction.Stack.{zero_stack, fill_bytes, interpret_enter}

-- A frame of `words` locals below the stack pointer lies in the memory, and no trap is raised.
pub record HasFrame (words : ℕ) (m : Machine) : Type 0 where
  pub has : HasMemory m
  pub whole : m.memory.end ≤ m.block.base + m.memory.n_bytes
  pub above_beg : m.memory.beg + words * 4 + 8 ≤ m.cpu.r sp
  pub below_end : m.cpu.r sp < m.memory.end
  pub running : m.cpu.exception_raised ≡ false

-- The addresses of the saved frame pointer, and of the locals.
abbrev pub frame_at : Machine → ℕ
frame_at m = sub32 (sub32 (m.cpu.r sp) 4) 4

abbrev pub locals_at : ℕ → Machine → ℕ
locals_at words m = sub32 (frame_at m) (uint32 (words * 4))

-- The bytes of the locals, which an alpha build fills.
abbrev pub filled : BuildType → (ℕ → ℕ) → ℕ → ℕ → ℕ → ℕ
filled alpha bytes p n = fill_bytes bytes p n
filled beta bytes p n = bytes
filled release bytes p n = bytes

zero_stack_lem :
    (p n : ℕ) (m : Machine)
    → 0 < p
    → m.block.base ≤ p
    → p + n ≤ m.block.base + m.block.size
    → p < m.block.base + m.memory.n_bytes
    → zero_stack p n m ≡ returns tt (with_bytes (filled m.build m.bytes p n) m)
zero_stack_lem p n m h0 h1 h2 h3 = ground arith

abbrev pub saved : ℕ → Machine → Machine
saved rd m = stored (frame_at m) (m.cpu.r rd) (stored (sub32 (m.cpu.r sp) 4) (m.cpu.r retadr) m)

abbrev pub entered : ℕ → ℕ → Machine → Machine
entered rd words m = with_pc (add32 m.cpu.pc 4) (
    with_bytes (filled m.build (saved rd m).bytes (locals_at words m) (uint32 (words * 4)))
      (with_integer rd (frame_at m) (with_integer sp (locals_at words m) (saved rd m))))

module _ (rd words : ℕ) (m : Machine) (frame : HasFrame words m) where
  open frame use {has, whole, above_beg, below_end, running}
  open has use {small}

  ra_inside : InMemory m.memory (sub32 (m.cpu.r sp) 4) 4
  ra_inside = ground arith

  rd_inside : InMemory m.memory (frame_at m) 4
  rd_inside = ground arith

  -- `m` with the mark of a trap cleared.
  abbrev n : Machine
  n = with_exception false m

  enter_running : interpret_enter rd words n ≡ returns tt (entered rd words n)
  unfolding interpret_enter
  enter_running =
      simp
        (
          write_word n has (sub32 (m.cpu.r sp) 4) (m.cpu.r retadr) ra_inside,
          write_word (stored (sub32 (m.cpu.r sp) 4) (m.cpu.r retadr) n) has (frame_at n)
              (m.cpu.r rd) rd_inside,
        )
        (returns->> (zero_stack (locals_at words n) (uint32 (words * 4))) (increment_pc 1) (
          zero_stack_lem (locals_at words n) (uint32 (words * 4))
            (with_integer rd (frame_at n) (with_integer sp (locals_at words n) (saved rd n)))
            (ground arith) (ground arith) (ground arith) (ground arith)))

  pub enter_lem : interpret_enter rd words m ≡ returns tt (entered rd words m)
  enter_lem =
      while_running (λ m. interpret_enter rd words m ≡ returns tt (entered rd words m)) m running
        enter_running
