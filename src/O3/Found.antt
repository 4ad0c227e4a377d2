-- ===== src/O3/Found.antt =====
-- loader/o3.cpp: a module is found by its name.
use oberon.Prelude.{false, ℕ, ◌+◌, ◌≤◌, ◌<◌, ◌≡◌, refl, arith, List, [], ◌∷◌, Option, none, some}
use oberon.Prelude.Text.{same_text}
use oberon.Prelude.Tests.{◌==◌, if◌then◌else◌}
use oberon.Prelude.Word.{uint8}
use oberon.Machine.State.{Machine, returns}
use oberon.Machine.Memory.{load4, read_1_ze}
use oberon.Heap.Tiles.{host_address_lem, read_4_ze_lem}
use oberon.O3.Layout.{equals, module_name, same_string}
use oberon.O3.Loader.{Loader, did}
use oberon.O3.Modules.{named, find_module}
use oberon.O3.Walked.{addresses, All, first_some, each_module-first_some}
use oberon.O3.Chain.{IsMapped, Modules}

-- The string at `a`, with its 0 below `hi`.
abbrev pub Text : (ℕ → ℕ) → ℕ → ℕ → List ℕ → Type 0
Text b hi a [] = (a < hi) × (uint8 (b a) ≡ 0)
Text b hi a (c ∷ cs) = (a < hi) × (uint8 (b a) ≡ c) × (0 < c) × Text b hi (a + 1) cs

-- A C string has no byte 0.
abbrev pub Positive : List ℕ → Type 0
Positive [] = Unit {0}
Positive (c ∷ cs) = (0 < c) × Positive cs

-- The word `name` of a module leads to its name.
abbrev pub HasName : Machine → ℕ → List ℕ → Type 0
HasName m p s =
    let a = load4 m.bytes (p + 60) in
    (m.block.base ≤ a) × Text m.bytes (m.block.base + m.memory.n_bytes) a s

-- Modules with their names.
abbrev pub AllNamed : Machine → List (ℕ × List ℕ) → Type 0
AllNamed m = All (HasName m)

-- The first module of the name.
abbrev pub find : List ℕ → List (ℕ × List ℕ) → Option ℕ
find s = first_some λ p t. if same_text s t then some p else none

module _ (m : Machine) (is : IsMapped m) where
  open is use {positive, whole, small}

  pub byte_lem :
      (a : ℕ)
      → m.block.base ≤ a
      → a < m.block.base + m.memory.n_bytes
      → read_1_ze (some a) m ≡ returns (uint8 (m.bytes a)) m
  unfolding read_1_ze
  byte_lem a from below = ground arith

  pub equals_lem :
      (s t : List ℕ) (a : ℕ)
      → Positive s
      → m.block.base ≤ a
      → Text m.bytes (m.block.base + m.memory.n_bytes) a t
      → equals a s m ≡ returns (same_text s t) m
  equals_lem [] [] a plain from (below, e) = rw (byte_lem a from below, e) refl
  equals_lem [] (d ∷ ds) a plain from (below, e, positive, text) =
      rw (byte_lem a from below, e, other) refl
    where
      other : (d == 0) ≡ false
      other = ground arith
  equals_lem (c ∷ cs) [] a (above, plain) from (below, e) =
      rw (byte_lem a from below, e, other) refl
    where
      other : (0 == c) ≡ false
      other = ground arith
  equals_lem (c ∷ cs) (d ∷ ds) a (above, plain) from (below, e, positive, text) =
      rw (byte_lem a from below, e)
        (ground (arith, equals_lem cs ds (a + 1) plain (omega arith) text))

module _ (l : Loader) (is : IsMapped l.machine) (s : List ℕ) (plain : Positive s) where
  open is use {positive, whole, small}

  named_lem :
      (p : ℕ) (t : List ℕ)
      → l.machine.block.base ≤ p
      → p + 64 ≤ l.machine.block.base + l.machine.memory.n_bytes
      → HasName l.machine p t
      → named s p l ≡ did (if same_text s t then some p else none) l
  unfolding named module_name same_string
  named_lem p t from fits (at_name, text) =
      rw
        (
          read_4_ze_lem l.machine (p + 60) (omega arith) (omega arith),
          host_address_lem l.machine (load4 l.machine.bytes (p + 60)) (omega arith) at_name
              (below t text) (omega (arith, below t text)),
          equals_lem l.machine is s t (load4 l.machine.bytes (p + 60)) plain at_name text,
        )
        (ground arith)
    where
      below :
          (u : List ℕ)
          → Text l.machine.bytes
              (l.machine.block.base + l.machine.memory.n_bytes)
              (load4 l.machine.bytes (p + 60))
              u
          → load4 l.machine.bytes (p + 60) < l.machine.block.base + l.machine.memory.n_bytes
      below [] h = h.0
      below (c ∷ cs) h = h.0

  -- Where the modules of the list lie at growing addresses in a mapped memory and each leads to
  -- its name there, find_module ends with the first module of a name without a byte 0, or with
  -- none if there is none, and changes nothing.
  pub find_module-find :
      (ms : List (ℕ × List ℕ))
      → Modules l.machine l.module_list (addresses ms)
      → AllNamed l.machine ms
      → find_module s l ≡ did (find s ms) l
  unfolding find_module
  find_module-find =
      each_module-first_some l is (named s) (λ p t. if same_text s t then some p else none)
        (HasName l.machine) named_lem
