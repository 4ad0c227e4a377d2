-- ===== src/O3/Walked.antt =====
-- loader/o3.cpp: a loop over the list of modules ends at the first module that gives a value.
use oberon.Prelude.{
  ℕ, zero, suc, ◌+◌, ◌≤◌, ◌≡◌, refl, arith, List, [], ◌∷◌, Option, none, some, inl, inr, ◌⊎◌,
}
use oberon.Prelude.Text.{length}
use oberon.Machine.Memory.{load4}
use oberon.O3.Loader.{Loader, L, did}
use oberon.O3.Modules.{walk_modules, each_module, list_fuel}
use oberon.O3.Chain.{Chain, IsMapped, Modules, first_of, first_lem, next_lem, Chain-length}

-- Addresses of modules, each with what is known of the module.
abbrev pub addresses : {B : Type 0} → List (ℕ × B) → List ℕ
addresses [] = []
addresses ((p, b) ∷ ms) = p ∷ addresses ms

-- A property of every module.
abbrev pub All : {B : Type 0} → (ℕ → B → Type 0) → List (ℕ × B) → Type 0
All P [] = Unit {0}
All P ((p, b) ∷ ms) = P p b × All P ms

abbrev pub or_else : {A : Type 0} → Option A → Option A → Option A
or_else (some a) o = some a
or_else none o = o

-- The first value.
abbrev pub first_some : {A B : Type 0} → (ℕ → B → Option A) → List (ℕ × B) → Option A
first_some g [] = none
first_some g ((p, b) ∷ ms) = or_else (g p b) (first_some g ms)

Option-cases : {A : Type 0} (o : Option A) → ((a : A) × (o ≡ some a)) ⊎ (o ≡ none)
Option-cases none = inr refl
Option-cases (some a) = inl (a, refl)

module _ {A B : Type 0} (l : Loader) (is : IsMapped l.machine) (body : ℕ → L (Option A))
    (g : ℕ → B → Option A) (P : ℕ → B → Type 0)
    (gives : (p : ℕ) (b : B)
      → l.machine.block.base ≤ p
      → p + 64 ≤ l.machine.block.base + l.machine.memory.n_bytes
      → P p b
      → body p l ≡ did (g p b) l) where
  open is use {positive, whole, small}

  walk_first :
      (n lo a : ℕ) (ms : List (ℕ × B))
      → l.machine.block.base ≤ lo
      → Chain l.machine.bytes lo (l.machine.block.base + l.machine.memory.n_bytes) a (addresses ms)
      → All P ms
      → length (addresses ms) ≤ n
      → walk_modules n (first_of (addresses ms)) body l ≡ did (first_some g ms) l
  unfolding walk_modules
  walk_first n lo a [] above chain all enough = refl
  walk_first zero lo a ((p, b) ∷ ms) above chain all enough = absurd (omega arith)
  walk_first (suc n) lo a ((p, b) ∷ ms) above (e, from, fits, chain) (holds, all) enough =
      elim (Option-cases (g p b)) [
        | inl (v, found) ↦ rw (gives p b (omega arith) fits holds, found) refl
        | inr other ↦
            rw
              (
                gives p b (omega arith) fits holds,
                other,
                next_lem l.machine is p (omega arith) fits,
                first_lem l.machine is (p + 64) (load4 l.machine.bytes p) (addresses ms)
                    (omega arith) chain,
              )
              (walk_first n (p + 64) (load4 l.machine.bytes p) ms (omega arith) chain all
                (omega arith))
      ]

  pub each_module-first_some :
      (ms : List (ℕ × B))
      → Modules l.machine l.module_list (addresses ms)
      → All P ms
      → each_module body l ≡ did (first_some g ms) l
  each_module-first_some ms chain all =
      rw
        (first_lem l.machine is l.machine.block.base l.module_list (addresses ms) (omega arith)
          chain)
        (walk_first (list_fuel l) l.machine.block.base l.module_list ms (omega arith) chain all (
          omega (
            arith,
            Chain-length l.machine.bytes l.machine.block.base
                (l.machine.block.base + l.machine.memory.n_bytes) l.module_list (addresses ms)
                (omega arith) chain,
          )))
