-- ===== src/Instruction/Stack/Leave.antt =====
-- loader/skl_stack.cpp: LEAVE after the body of a procedure.
use oberon.Prelude.{ℕ, ◌+◌, ◌*◌, ◌%◌, ◌^◌, ◌≤◌, ◌<◌, ◌≡◌, ◌∙◌, refl, arith, false}
use oberon.Prelude.Word.{add32, sub32, uint32}
use oberon.Machine.State.{Machine, BuildType, alpha, beta, release, returns}
use oberon.Machine.Register.{sp, retadr, with_pc, with_integer, with_exception, while_running}
use oberon.Machine.Memory.{load4}
use oberon.Machine.Bounds.{HasMemory, InMemory, read_word}
use oberon.Machine.RoundTrip.{stored, load4-store4, load4-store4_apart}
use oberon.Instruction.Stack.{interpret_enter, interpret_leave}
use oberon.Instruction.Stack.Frame.{
  HasFrame, frame_at, locals_at, filled, saved, entered, enter_lem,
}

-- The machine after LEAVE, where `fp` and `ra` are the words saved in the frame.
abbrev pub left : (rd words fp ra : ℕ) → Machine → Machine
left rd words fp ra m = with_pc (add32 m.cpu.pc 4) (
    with_integer sp (add32 (add32 (add32 (m.cpu.r rd) 4) 4) (uint32 (words * 4)))
      (with_integer rd fp (with_integer retadr ra m)))

module _ (rd words : ℕ) (m : Machine) (has : HasMemory m) (in_fp : InMemory m.memory (m.cpu.r rd) 4)
    (in_ra : InMemory m.memory (add32 (m.cpu.r rd) 4) 4)
    (running : m.cpu.exception_raised ≡ false) where
  abbrev n : Machine
  n = with_exception false m

  leave_running :
      interpret_leave rd words n
      ≡ returns tt
          (left rd words (load4 m.bytes (m.cpu.r rd)) (load4 m.bytes (add32 (m.cpu.r rd) 4)) n)
  unfolding interpret_leave
  leave_running =
      simp (read_word n has (m.cpu.r rd) in_fp, read_word n has (add32 (m.cpu.r rd) 4) in_ra) refl

  pub leave_lem :
      interpret_leave rd words m
      ≡ returns tt
          (left rd words (load4 m.bytes (m.cpu.r rd)) (load4 m.bytes (add32 (m.cpu.r rd) 4)) m)
  leave_lem =
      while_running
        (λ m.
          interpret_leave rd words m
          ≡ returns tt
              (left rd words (load4 m.bytes (m.cpu.r rd)) (load4 m.bytes (add32 (m.cpu.r rd) 4)) m))
        m running leave_running

-- The locals are filled below the saved words.
load4-filled :
    (b : BuildType) (bytes : ℕ → ℕ) (p n q : ℕ)
    → p + n ≤ q
    → load4 (filled b bytes p n) q ≡ load4 bytes q
load4-filled alpha bytes p n q h = ground arith
load4-filled beta bytes p n q h = refl
load4-filled release bytes p n q h = refl

-- Two memories that agree on [p, p + 8) hold the same two words there.
load4-agree :
    (a b : ℕ → ℕ) (p q : ℕ)
    → p ≤ q
    → q + 4 ≤ p + 8
    → ((x : ℕ) → p ≤ x → x < p + 8 → a x ≡ b x)
    → load4 a q ≡ load4 b q
load4-agree a b p q lo hi agree =
    rw
      (
        agree q lo (ground arith),
        agree (q + 1) (ground arith) (ground arith),
        agree (q + 2) (ground arith) (ground arith),
        agree (q + 3) (ground arith) (ground arith),
      )
      refl

-- What the body of a procedure leaves as it found it.
pub record KeepsFrame (rd locals : ℕ) (m body : Machine) : Type 0 where
  pub memory : body.memory ≡ m.memory
  pub block : body.block ≡ m.block
  pub running : body.cpu.exception_raised ≡ false
  pub frame_pointer : body.cpu.r rd ≡ frame_at m
  pub words :
      (q : ℕ) → frame_at m ≤ q → q < frame_at m + 8 → body.bytes q ≡ (entered rd locals m).bytes q

module _ (rd locals words : ℕ) (m : Machine) (frame : HasFrame locals m) where
  open frame use {has, above_beg, below_end}
  open has use {small}

  ra_at : add32 (frame_at m) 4 ≡ sub32 (m.cpu.r sp) 4
  ra_at = ground arith

  sp_at : add32 (sub32 (m.cpu.r sp) 4) 4 ≡ m.cpu.r sp
  sp_at = ground arith

  below : locals_at locals m + uint32 (locals * 4) ≤ frame_at m
  below = ground arith

  saved_fp : load4 (entered rd locals m).bytes (frame_at m) ≡ m.cpu.r rd % 2 ^ 32
  saved_fp =
      load4-filled m.build (saved rd m).bytes (locals_at locals m) (uint32 (locals * 4))
        (frame_at m) below
      ∙ load4-store4 (stored (sub32 (m.cpu.r sp) 4) (m.cpu.r retadr) m).bytes (frame_at m)
          (m.cpu.r rd)

  saved_ra : load4 (entered rd locals m).bytes (sub32 (m.cpu.r sp) 4) ≡ m.cpu.r retadr % 2 ^ 32
  saved_ra =
      load4-filled m.build (saved rd m).bytes (locals_at locals m) (uint32 (locals * 4))
        (sub32 (m.cpu.r sp) 4) (ground arith)
      ∙ (load4-store4_apart (stored (sub32 (m.cpu.r sp) 4) (m.cpu.r retadr) m).bytes (frame_at m)
            (m.cpu.r rd) (sub32 (m.cpu.r sp) 4) (ground arith)
          ∙ load4-store4 m.bytes (sub32 (m.cpu.r sp) 4) (m.cpu.r retadr))

  -- Where a frame fits the memory and no trap is raised, ENTER saves two words below the stack
  -- pointer and reserves the locals below them; after any body that keeps the frame pointer, the
  -- two saved words and the memory's bounds, and ends with no trap raised, LEAVE restores the
  -- frame pointer, the return address and the stack pointer, from which it also removes `words`
  -- words of arguments.
  pub enter_then_leave :
      (body : Machine) (keeps : KeepsFrame rd locals m body)
      → (interpret_enter rd locals m ≡ returns tt (entered rd locals m))
        × (interpret_leave rd words body
            ≡ returns tt (
                with_pc (add32 body.cpu.pc 4) (
                  with_integer sp (add32 (m.cpu.r sp) (uint32 (words * 4))) (
                    with_integer rd
                      (m.cpu.r rd % 2 ^ 32)
                      (with_integer retadr (m.cpu.r retadr % 2 ^ 32) body)))))
  enter_then_leave body keeps = (enter_lem rd locals m frame, after)
    where
      has_body : HasMemory body
      has_body = rw (keeps.memory, keeps.block) has

      in_fp : InMemory body.memory (body.cpu.r rd) 4
      in_fp = rw (keeps.memory, keeps.frame_pointer) (ground arith)

      in_ra : InMemory body.memory (add32 (body.cpu.r rd) 4) 4
      in_ra = rw (keeps.memory, keeps.frame_pointer) (ground arith)

      fp : load4 body.bytes (frame_at m) ≡ m.cpu.r rd % 2 ^ 32
      fp =
          load4-agree body.bytes (entered rd locals m).bytes (frame_at m) (frame_at m)
            (ground arith) (ground arith) keeps.words
          ∙ saved_fp

      ra : load4 body.bytes (sub32 (m.cpu.r sp) 4) ≡ m.cpu.r retadr % 2 ^ 32
      ra =
          load4-agree body.bytes (entered rd locals m).bytes (frame_at m) (sub32 (m.cpu.r sp) 4)
            (ground arith) (ground arith) keeps.words
          ∙ saved_ra

      after :
          interpret_leave rd words body
          ≡ returns tt (
              with_pc (add32 body.cpu.pc 4) (
                with_integer sp (add32 (m.cpu.r sp) (uint32 (words * 4))) (
                  with_integer rd
                    (m.cpu.r rd % 2 ^ 32)
                    (with_integer retadr (m.cpu.r retadr % 2 ^ 32) body))))
      after =
          leave_lem rd words body has_body in_fp in_ra keeps.running
          ∙ rw (keeps.frame_pointer, ra_at, fp, ra, sp_at) refl
