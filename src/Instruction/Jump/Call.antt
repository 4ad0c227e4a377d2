-- ===== src/Instruction/Jump/Call.antt =====
-- loader/skl_jump.cpp and loader/skl_jral.cpp: a call and the return from it.
use oberon.Prelude.{ℕ, ◌≡◌, refl}
use oberon.Prelude.Word.{add32}
use oberon.Shift.{field}
use oberon.Machine.State.{returns->>=, ◌>>=◌, Machine, returns}
use oberon.Machine.Register.{retadr, with_pc, with_integer}
use oberon.Machine.Memory.{load4}
use oberon.Machine.Bounds.{HasMemory, InMemory, read_word}
use oberon.Instruction.Jump.{jal, construct_jal, interpret_jump, interpret_jral}

-- The machine after the call.
abbrev pub called : ℕ → Machine → Machine
called pc m = with_pc (load4 m.bytes (add32 pc 4)) (with_integer retadr (add32 pc 8) m)

module _ (pc inst : ℕ) (m : Machine) (has : HasMemory m)
    (operand : InMemory m.memory (add32 pc 4) 4) (names : field inst 25 21 ≡ retadr) where
  constructs :
      construct_jal pc inst m ≡ returns (jal retadr (load4 m.bytes (add32 pc 4)) (add32 pc 8)) m
  unfolding construct_jal
  constructs = simp (read_word m has (add32 pc 4) operand, names) refl

  -- A JAL that names the register of return addresses and whose operand lies in the memory goes to
  -- the address in its second word; a return through the register of return addresses, from any
  -- state in which that register is as the call left it, goes to the address after the two words
  -- of the call.
  pub call_then_return :
      (body : Machine) (rd again : ℕ)
      → body.cpu.r retadr ≡ (called pc m).cpu.r retadr
      → ((construct_jal pc inst >>= interpret_jump) m ≡ returns tt (called pc m))
        × (interpret_jral (record { rd = rd; r0 = retadr; return_addr = again }) body
            ≡ returns tt (with_pc (add32 pc 8) (with_integer rd again body)))
  unfolding interpret_jump interpret_jral
  call_then_return body rd again kept =
      (returns->>= (construct_jal pc inst) interpret_jump constructs, rw kept refl)
