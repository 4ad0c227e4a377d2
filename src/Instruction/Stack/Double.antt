-- ===== src/Instruction/Stack/Double.antt =====
-- loader/skl_stack.cpp: a double that is pushed as two words is popped.
use oberon.Prelude.{ℕ, ◌+◌, ◌%◌, ◌^◌, ◌≤◌, ◌<◌, ◌≡◌, ◌∙◌, refl, arith, false}
use oberon.Prelude.Word.{add32, sub32}
use oberon.Ieee.{Ieee, decompose_lo, decompose_hi, recompose_double}
use oberon.Machine.State.{◌>>◌, returns->>, Machine, returns}
use oberon.Machine.Register.{
  while_running, sp, update, with_pc, with_integer, with_real, with_exception,
}
use oberon.Machine.Memory.{load4, store4, with_bytes}
use oberon.Machine.Bounds.{HasMemory}
use oberon.Machine.RoundTrip.{load4-store4, load4-store4_apart}
use oberon.Instruction.Stack.{pushd, popd, interpret_stack}
use oberon.Instruction.Stack.Push.{HasRoom, pushed_word, push_word_lem, pop_word_lem}

-- The two words below the top of the stack lie in the memory, and no trap is raised.
pub record HasDoubleRoom (m : Machine) : Type 0 where
  pub has : HasMemory m
  pub above : m.memory.beg + 8 ≤ m.cpu.r sp
  pub below : m.cpu.r sp < m.memory.end
  pub running : m.cpu.exception_raised ≡ false

-- The bytes with the two words of `v` below the top of the stack.
abbrev pub double_bytes : ℕ → Machine → ℕ → ℕ
double_bytes v m =
    store4 (store4 m.bytes (sub32 (m.cpu.r sp) 4) (decompose_hi v)) (sub32 (sub32 (m.cpu.r sp) 4) 4)
      (decompose_lo v)

abbrev pub pushed_double : ℕ → Machine → Machine
pushed_double v m =
    with_pc (add32 m.cpu.pc 4) (pushed_word (decompose_lo v) (pushed_word (decompose_hi v) m))

-- The machine after PUSHD rs and POPD rd.
abbrev pub moved_double : ℕ → ℕ → Machine → Machine
moved_double rs rd m =
    with_pc (add32 (add32 m.cpu.pc 4) 4)
      (with_real rd (m.cpu.f rs) (with_bytes (double_bytes (m.cpu.f rs) m) m))

module _ (fp : Ieee) (m : Machine) (room : HasDoubleRoom m) (rs rd : ℕ)
    (pattern : m.cpu.f rs < 2 ^ 64) where
  open room use {has, above, below, running}
  open has use {small}

  abbrev n : Machine
  n = with_exception false m

  abbrev v : ℕ
  v = m.cpu.f rs

  first : HasRoom n
  first = record {
    has = has;
    above_word = omega arith;
    top_small = omega arith;
    inside = ground arith;
    running = refl;
  }

  second : HasRoom (pushed_word (decompose_hi v) n)
  second = record {
    has = has;
    above_word = ground arith;
    top_small = ground arith;
    inside = ground arith;
    running = refl;
  }

  pushd_running : interpret_stack fp (pushd rs) n ≡ returns tt (pushed_double v n)
  unfolding interpret_stack
  pushd_running =
      simp (push_word_lem first (decompose_hi v), push_word_lem second (decompose_lo v)) refl

  -- The addresses of the low and the high word.
  abbrev low_at : ℕ
  low_at = sub32 (sub32 (m.cpu.r sp) 4) 4

  abbrev high_at : ℕ
  high_at = add32 low_at 4

  low_word : load4 (double_bytes v n) low_at ≡ decompose_lo v % 2 ^ 32
  low_word =
      load4-store4 (store4 m.bytes (sub32 (m.cpu.r sp) 4) (decompose_hi v)) low_at (decompose_lo v)

  high_back : high_at ≡ sub32 (m.cpu.r sp) 4
  high_back = ground arith

  high_word : load4 (double_bytes v n) high_at ≡ decompose_hi v % 2 ^ 32
  high_word = rw high_back (
      load4-store4_apart (store4 m.bytes (sub32 (m.cpu.r sp) 4) (decompose_hi v)) low_at
        (decompose_lo v) (sub32 (m.cpu.r sp) 4) (ground arith)
      ∙ load4-store4 m.bytes (sub32 (m.cpu.r sp) 4) (decompose_hi v))

  whole : recompose_double (decompose_lo v % 2 ^ 32) (decompose_hi v % 2 ^ 32) ≡ v
  whole = omega arith

  registers_back :
      update
        (update (update (update m.cpu.r sp (sub32 (m.cpu.r sp) 4)) sp low_at) sp high_at)
        sp
        (add32 high_at 4)
      ≡ m.cpu.r
  registers_back i q = at q i
    where
      at :
          (q : ℕ)
          → update
              (update (update (update m.cpu.r sp (sub32 (m.cpu.r sp) 4)) sp low_at) sp high_at)
              sp
              (add32 high_at 4)
              q
            ≡ m.cpu.r q
      at q = ground arith

  popd_running :
      interpret_stack fp (popd rd) (pushed_double v n) ≡ returns tt (moved_double rs rd n)
  unfolding interpret_stack
  popd_running =
      simp
        (
          pop_word_lem (pushed_double v n) has second.inside refl,
          pop_word_lem (with_integer sp high_at (pushed_double v n)) has (ground arith) refl,
        )
        (rw (low_word, high_word, whole, registers_back) refl)

  both_running :
      (interpret_stack fp (pushd rs) >> interpret_stack fp (popd rd)) n
      ≡ returns tt (moved_double rs rd n)
  both_running =
      returns->> (interpret_stack fp (pushd rs)) (interpret_stack fp (popd rd)) pushd_running
      ∙ popd_running

  -- In a machine with room for two words on the stack and no trap raised, PUSHD of a register that
  -- holds a 64-bit pattern followed by POPD into a register copies the pattern, leaves every
  -- integer register and every other real register as it was, and moves the program counter over
  -- the two instructions.
  pub pushd_then_popd :
      (interpret_stack fp (pushd rs) >> interpret_stack fp (popd rd)) m
      ≡ returns tt (moved_double rs rd m)
  pushd_then_popd =
      while_running
        (λ m.
          (interpret_stack fp (pushd rs) >> interpret_stack fp (popd rd)) m
          ≡ returns tt (moved_double rs rd m))
        m running both_running
