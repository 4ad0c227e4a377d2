-- ===== src/Execute/Uncached.antt =====
-- loader/skl.cpp: the loop against a processor that fetches and decodes every instruction.
use oberon.Prelude.{
  ℕ, zero, suc, ◌+◌, ◌≤◌, ◌<◌, ◌^◌, ◌≡◌, ◌≢◌, refl, sym, subst, ap, ◌∙◌, Option, none, some,
}
use oberon.Ieee.{Ieee}
use oberon.Machine.State.{release, M, Machine, returns, returns->>=, returns->>, ◌>>=◌}
use oberon.Machine.Keeps.{Keeps, Place, place}
use oberon.Decode.{Instruction, fetch_and_decode}
use oberon.Execute.{
  Emulator, Run, running, stopped, reset_r0, interpret_cached, fetch_round, round, rounds,
}
use oberon.Execute.Reset.{reset, reset_r0_lem, reset_pc, place-reset}
use oberon.Execute.Coherent.{IsCoherent, Holds}
use oberon.Execute.Processor.{executed, decoded_step, uncached, uncached_steps, IsFixed}
use oberon.Execute.Links.{Goes, interpret_lem, fetch_lem}

module _ (fp : Ieee) (service : ℕ → ℕ → M (Unit {0})) (kept : (a b : ℕ) → Keeps (service a b))
    (p : Place) (asserts : p.build ≢ release) (small : p.block.base + p.memory.n_bytes ≤ 2 ^ 32)
    (code : ℕ → Instruction) where
  module _ (e : Emulator) where
    -- A step of the processor without a cache, from what a fetch decodes.
    step_lem :
        {i : Instruction} {m' : Machine}
        → fetch_and_decode fp (reset e.machine) ≡ returns (some i) (reset e.machine)
        → executed fp service i (reset e.machine) ≡ returns tt m'
        → uncached fp service e.machine ≡ returns tt m'
    step_lem {i} {m'} f d =
        returns->> reset_r0 (fetch_and_decode fp >>= decoded_step fp service) {s = e.machine}
          {t = reset e.machine} (reset_r0_lem e.machine)
        ∙ (returns->>= (fetch_and_decode fp) (decoded_step fp service) f ∙ d)

    -- What holds of the machine after a round.
    abbrev Stepped : Machine → Type 0
    Stepped x = (uncached fp service e.machine ≡ returns tt x) × (place x ≡ p)

    round_lem :
        IsCoherent p.block.base code e
        → place e.machine ≡ p
        → 0 < e.machine.cpu.pc
        → fetch_and_decode fp (reset e.machine)
          ≡ returns (some (code e.machine.cpu.pc)) (reset e.machine)
        → Holds (Goes fp service kept p asserts small code Stepped) (round fp service e)
    unfolding round
    round_lem coherent here positive fetched = rw (reset_r0_lem e.machine) (at_next e.next refl)
      where
        here' : place (reset e.machine) ≡ p
        here' = place-reset e.machine ∙ here

        fetched' :
            fetch_and_decode fp (reset e.machine)
            ≡ returns (some (code (reset e.machine).cpu.pc)) (reset e.machine)
        fetched' =
            subst
              (λ a.
                fetch_and_decode fp (reset e.machine) ≡ returns (some (code a)) (reset e.machine))
              (sym (reset_pc e.machine)) fetched

        at_next :
            (o : Option ℕ)
            → e.next ≡ o
            → Holds (Goes fp service kept p asserts small code Stepped) (elim o [
              | none ↦ fetch_round fp service e.cache (reset e.machine)
              | some k ↦ interpret_cached fp service e.cache k (reset e.machine)
            ])
        at_next none q =
            fetch_lem fp service kept p asserts small code Stepped e.cache (reset e.machine)
              coherent.objects here' (subst (λ a. 0 < a) (sym (reset_pc e.machine)) positive)
              fetched' (λ m' d at. (step_lem fetched' d, at))
        at_next (some k) q =
            let (c, found, right) = coherent.next k q in
            let body : c.body ≡ code e.machine.cpu.pc =
              (coherent.objects k c found).1 ∙ ap code (right positive) in
            interpret_lem fp service kept p asserts small code Stepped e.cache k c (reset e.machine)
              coherent.objects found here'
              (λ m' d at. (
                step_lem fetched
                    (subst (λ i. executed fp service i (reset e.machine) ≡ returns tt m') body d),
                at,
              ))

    Holds-on :
        (Q : Emulator → Type 0) (n : ℕ) (r : Run)
        → ((x : Emulator) → r ≡ running x → Holds Q (rounds fp service n x))
        → Holds Q (elim r [ running x ↦ rounds fp service n x | stopped h ↦ stopped h ])
    Holds-on Q n (running x) later = later x refl
    Holds-on Q n (stopped h) later = tt

  Holds-map :
      (Q R : Emulator → Type 0) (r : Run) → ((x : Emulator) → Q x → R x) → Holds Q r → Holds R r
  Holds-map Q R (running e) f q = f e q
  Holds-map Q R (stopped h) f q = tt

  rounds_lem :
      (n : ℕ) (e : Emulator)
      → IsFixed fp service code n e.machine
      → place e.machine ≡ p
      → IsCoherent p.block.base code e
      → Holds
          (Goes fp service kept p asserts small code
            (λ x. uncached_steps fp service n e.machine ≡ returns tt x))
          (rounds fp service n e)
  unfolding rounds
  rounds_lem zero e fixed here coherent = (refl, coherent)
  rounds_lem (suc n) e (fetched, positive, fixed) here coherent =
      Holds-on e _ n (round fp service e) (λ x q.
        let (at_x, coherent_x) =
          subst (Holds (Goes fp service kept p asserts small code (Stepped e))) q
            (round_lem e coherent here positive fetched) in
        Holds-map _ _ (rounds fp service n x)
          (λ y (steps, coherent_y). (
            returns->> (uncached fp service) (uncached_steps fp service n) {s = e.machine}
                  {t = x.machine} at_x.0
                ∙ steps,
            coherent_y,
          ))
          (rounds_lem n x (fixed x.machine at_x.0) at_x.1 coherent_x))

module _ (fp : Ieee) (service : ℕ → ℕ → M (Unit {0})) (kept : (a b : ℕ) → Keeps (service a b))
    (code : ℕ → Instruction) (n : ℕ) (e : Emulator) (asserts : e.machine.build ≢ release)
    (small : e.machine.block.base + e.machine.memory.n_bytes ≤ 2 ^ 32)
    (fixed : IsFixed fp service code n e.machine)
    (coherent : IsCoherent e.machine.block.base code e) where
  -- In the same setting, wherever n rounds of the loop run on, every object of the cache is still
  -- the instruction of the code at its address and lies at the index of that address, and the next
  -- object, if any, is that at the program counter, unless this is 0.
  pub rounds-IsCoherent :
      {e' : Emulator} → rounds fp service n e ≡ running e' → IsCoherent e.machine.block.base code e'
  rounds-IsCoherent {e'} runs =
      (subst (Holds _) runs
        (rounds_lem fp service kept (place e.machine) asserts small code n e fixed refl coherent)).1

  -- Take a build with assertions, a block below 2^32, services that do not move the memory, and a
  -- loop whose cached objects are instructions of the code at their addresses and whose next
  -- object, if any, is that at the program counter. If for n steps of a processor without a cache
  -- each fetch decodes the instruction that the code has at the program counter, which is not 0,
  -- and leaves the machine as it is, which needs the mark of a trap clear, then wherever n rounds
  -- of the loop run on they end in the machine that n steps of this processor reach.
  pub rounds-uncached :
      {e' : Emulator}
      → rounds fp service n e ≡ running e'
      → uncached_steps fp service n e.machine ≡ returns tt e'.machine
  rounds-uncached {e'} runs =
      (subst (Holds _) runs
        (rounds_lem fp service kept (place e.machine) asserts small code n e fixed refl coherent)).0
