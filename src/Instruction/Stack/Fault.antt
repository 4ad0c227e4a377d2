-- ===== src/Instruction/Stack/Fault.antt =====
-- loader/skl_stack.cpp: stack instructions that trap.
use oberon.Prelude.{ℕ, ◌≡◌, refl, false}
use oberon.Prelude.Word.{sub32}
use oberon.Ieee.{Ieee}
use oberon.Machine.State.{Machine, returns}
use oberon.Machine.Register.{sp}
use oberon.Machine.Trap.{out_of_bounds_read, out_of_bounds_write, trapped, IsIdle}
use oberon.Machine.Memory.{address_valid}
use oberon.Machine.Bounds.{read_outside, write_outside}
use oberon.Instruction.Stack.{
  push, pushf, pushd, pop, popf, popd, enter, leave, interpret_stack, interpret_leave,
  interpret_enter, push_word, pop_word,
}

module _ (fp : Ieee) (m : Machine) (idle : IsIdle m) where
  -- While no hardware trap is handled, a push whose word does not lie in the memory only raises
  -- the trap of an access out of bounds: no byte and no other register changes, and control is at
  -- the handler.
  pub push_fault :
      (rs : ℕ)
      → address_valid m.memory (sub32 (m.cpu.r sp) 4) 4 ≡ false
      → (interpret_stack fp (push rs) m ≡ returns tt (trapped out_of_bounds_write m))
        × (interpret_stack fp (pushf rs) m ≡ returns tt (trapped out_of_bounds_write m))
        × (interpret_stack fp (pushd rs) m ≡ returns tt (trapped out_of_bounds_write m))
  unfolding interpret_stack push_word
  push_fault rs outside = (
    rw (write_outside m (sub32 (m.cpu.r sp) 4) 4 outside idle (m.cpu.r rs)) refl,
    rw (write_outside m (sub32 (m.cpu.r sp) 4) 4 outside idle _) refl,
    rw (write_outside m (sub32 (m.cpu.r sp) 4) 4 outside idle _) refl,
  )

  -- While no hardware trap is handled, a pop whose word does not lie in the memory only raises the
  -- trap of an access out of bounds.
  pub pop_fault :
      (rd : ℕ)
      → address_valid m.memory (m.cpu.r sp) 4 ≡ false
      → (interpret_stack fp (pop rd) m ≡ returns tt (trapped out_of_bounds_read m))
        × (interpret_stack fp (popf rd) m ≡ returns tt (trapped out_of_bounds_read m))
        × (interpret_stack fp (popd rd) m ≡ returns tt (trapped out_of_bounds_read m))
  unfolding interpret_stack pop_word
  pop_fault rd outside = (
    rw (read_outside m (m.cpu.r sp) 4 outside idle false) refl,
    rw (read_outside m (m.cpu.r sp) 4 outside idle false) refl,
    rw (read_outside m (m.cpu.r sp) 4 outside idle false) refl,
  )

  -- While no hardware trap is handled, ENTER, when the word of the return address does not lie in
  -- the memory, and LEAVE, when that of the frame pointer does not, only raise the trap of an
  -- access out of bounds.
  pub frame_fault :
      (rd words : ℕ)
      → address_valid m.memory (sub32 (m.cpu.r sp) 4) 4 ≡ false
      → address_valid m.memory (m.cpu.r rd) 4 ≡ false
      → (interpret_stack fp (enter rd words) m ≡ returns tt (trapped out_of_bounds_write m))
        × (interpret_stack fp (leave rd words) m ≡ returns tt (trapped out_of_bounds_read m))
  unfolding interpret_stack interpret_enter interpret_leave
  frame_fault rd words outside_ra outside_fp = (
    rw (write_outside m (sub32 (m.cpu.r sp) 4) 4 outside_ra idle (m.cpu.r 31)) refl,
    rw (read_outside m (m.cpu.r rd) 4 outside_fp idle false) refl,
  )
