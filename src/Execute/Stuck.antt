-- ===== src/Execute/Stuck.antt =====
-- loader/skl.cpp and loader/skl_stack.cpp: the mark of a trap while cached instructions run.
use oberon.Prelude.{not, arith, false, none, ap, ◌∙◌, zero, refl, suc, ℕ, ◌≡◌, true, some}
use oberon.Prelude.Tests.{◌==◌}
use oberon.Prelude.Tests.{◌==◌}
use oberon.Prelude.Word.{sub32, add32}
use oberon.Ieee.{Ieee}
use oberon.Machine.State.{◌>>◌, undefined, Machine, M, returns}
use oberon.Machine.Register.{increment_instruction_count, sp}
use oberon.Machine.Memory.{store4, with_bytes}
use oberon.Machine.Bounds.{HasMemory, InMemory, write_word}
use oberon.Instruction.Stack.{push, push_word, interpret_stack}
use oberon.Decode.{stack, interpret}
use oberon.Execute.{
  then_run, link_next, is_stale, Cache, stopped, interpret_cached, rounds, Cached, Emulator,
  running, round,
}

-- The loop is at a cached PUSH of the register `rs` at address `p`, with the mark of a trap set, and
-- the object's link points to itself.
pub record IsStuck (rs k p : ℕ) (e : Emulator) : Type 0 where
  pub has : HasMemory e.machine
  pub inside : InMemory e.machine.memory (sub32 (e.machine.cpu.r sp) 4) 4
  pub at : e.machine.cpu.pc ≡ p
  pub raised : e.machine.cpu.exception_raised ≡ true
  pub r0 : e.machine.cpu.r 0 ≡ 0
  pub next : e.next ≡ some k
  pub object : e.cache k ≡ some (record { pc = p; body = stack (push rs); next = some k })

-- The word is written again, and the instruction counted.
abbrev again : ℕ → Emulator → Emulator
again rs e =
    let m = e.machine in
    let m' = with_bytes (store4 m.bytes (sub32 (m.cpu.r sp) 4) (m.cpu.r rs)) m in
    record e {
      machine = record m' {
        cpu = record m'.cpu { instruction_count = add32 m'.cpu.instruction_count 1 };
      };
    }

==_refl_not : (n : ℕ) → not (n == n) ≡ false
==_refl_not n = ground arith

module _ (fp : Ieee) (service : ℕ → ℕ → M (Unit {0})) (rs k p : ℕ) where
  push_stuck :
      (m : Machine)
      → HasMemory m
      → InMemory m.memory (sub32 (m.cpu.r sp) 4) 4
      → m.cpu.exception_raised ≡ true
      → interpret_stack fp (push rs) m
        ≡ returns tt (with_bytes (store4 m.bytes (sub32 (m.cpu.r sp) 4) (m.cpu.r rs)) m)
  unfolding interpret_stack push_word
  push_stuck m has inside raised =
      rw (write_word m has (sub32 (m.cpu.r sp) 4) (m.cpu.r rs) inside, raised) refl

  cached_step :
      (cache : Cache) (m : Machine) {c : Cached}
      → cache k ≡ some c
      → interpret_cached fp service cache k m
        ≡ then_run
            ((interpret fp service c.body >> increment_instruction_count) m)
            (λ _ m'. link_next fp service cache k c m')
  unfolding interpret_cached
  cached_step cache m e =
      ap
        (λ o. elim o [
          | none ↦ stopped undefined
          | some c ↦
              then_run ((interpret fp service c.body >> increment_instruction_count) m)
                (λ _ m'. link_next fp service cache k c m')
        ])
        e

  not_stale : (cache : Cache) {c : Cached} → cache k ≡ some c → is_stale cache (some k) c.pc ≡ false
  not_stale cache {c} e =
      ap (λ o. elim o [ none ↦ true | some d ↦ not (d.pc == c.pc) ]) e ∙ ==_refl_not c.pc

  linked :
      (cache : Cache) (m : Machine) (c : Cached)
      → is_stale cache c.next m.cpu.pc ≡ false
      → link_next fp service cache k c m
        ≡ running (record { machine = m; cache = cache; next = c.next })
  unfolding link_next
  linked cache m c e = rw e refl

  round_stuck : (e : Emulator) → IsStuck rs k p e → round fp service e ≡ running (again rs e)
  unfolding round interpret
  round_stuck e stuck =
      rw
        (
          stuck.r0,
          stuck.next,
          cached_step e.cache e.machine stuck.object,
          push_stuck e.machine stuck.has stuck.inside stuck.raised,
        )
        (linked e.cache (again rs e).machine
          (record { pc = p; body = stack (push rs); next = some k })
          (rw stuck.at (not_stale e.cache stuck.object)))

  rounds-suc :
      (n : ℕ) (e : Emulator) {e' : Emulator}
      → round fp service e ≡ running e'
      → rounds fp service (suc n) e ≡ rounds fp service n e'
  unfolding rounds
  rounds-suc n e runs =
      ap (λ o. elim o [ running e' ↦ rounds fp service n e' | stopped h ↦ stopped h ]) runs

  again-IsStuck : (e : Emulator) → IsStuck rs k p e → IsStuck rs k p (again rs e)
  again-IsStuck e stuck = record {
    has = stuck.has;
    inside = stuck.inside;
    at = stuck.at;
    raised = stuck.raised;
    r0 = stuck.r0;
    next = stuck.next;
    object = stuck.object;
  }

  -- The loop never leaves a cached PUSH that it reaches with the mark of a trap set, with a stack
  -- inside the memory, and linked to itself: after any number of rounds it runs still, at the same
  -- address and with the mark set, since only a fetch that is not cached clears the mark and PUSH
  -- does not advance while it is set.
  pub push_never_left :
      (n : ℕ) (e : Emulator)
      → IsStuck rs k p e
      → (e' : Emulator) × (rounds fp service n e ≡ running e') × IsStuck rs k p e'
  unfolding rounds
  push_never_left zero e stuck = (e, refl, stuck)
  push_never_left (suc n) e stuck =
      let (e', runs, stuck') = push_never_left n (again rs e) (again-IsStuck e stuck) in
      (e', rounds-suc n e (round_stuck e stuck) ∙ runs, stuck')
