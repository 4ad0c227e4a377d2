-- ===== src/O3/Located.antt =====
-- loader/o3.cpp: the walk over the list of modules, and the module whose code has an address.
use oberon.Prelude.{
  ℕ, ◌+◌, ◌-◌, ◌^◌, ◌≤◌, ◌<◌, ◌≡◌, refl, arith, List, Option, none, some, inl, inr, true, ◌&&◌,
}
use oberon.Prelude.Tests.{leb, ltb, if◌then◌else◌, Bool-cases}
use oberon.Prelude.Int.{ℤ, pos}
use oberon.Prelude.Word.{add32, sub32, int32}
use oberon.Machine.State.{Machine}
use oberon.Machine.Memory.{load4}
use oberon.Heap.Arrays.{simple_elem_array_len}
use oberon.Heap.Tiles.{host_address_lem, read_4_ze_lem}
use oberon.O3.Loader.{Loader, did}
use oberon.O3.Modules.{offset_in, find_module_and_offset}
use oberon.O3.Walked.{addresses, All, first_some, each_module-first_some}
use oberon.O3.Chain.{IsMapped, Modules}

-- The code of a module: its address and its bytes.
pub record Code : Type 0 where
  pub at : ℕ
  pub bytes : ℕ

-- The word `code` of a module leads to the code, an array behind its descriptor.
abbrev pub HasCode : Machine → ℕ → Code → Type 0
HasCode m p c =
    (load4 m.bytes (p + 52) ≡ c.at)
    × (m.block.base + 16 ≤ c.at)
    × (c.at < m.block.base + m.memory.n_bytes)
    × (load4 m.bytes (c.at - 8) ≡ c.bytes)
    × (c.bytes < 2 ^ 31)
    × (c.at + c.bytes < 2 ^ 32)

-- The module and the offset, if the address lies in its code.
abbrev pub inside : ℕ → ℕ → Code → Option (ℕ × ℤ)
inside a p c = if leb c.at a && ltb a (c.at + c.bytes) then some (p, pos (a - c.at)) else none

-- The first module in whose code the address lies.
abbrev pub locate : ℕ → List (ℕ × Code) → Option (ℕ × ℤ)
locate a = first_some (inside a)

module _ (l : Loader) (is : IsMapped l.machine) (address : ℕ) (word : address < 2 ^ 32) where
  open is use {positive, whole, small}

  offset_in_lem :
      (p : ℕ) (c : Code)
      → l.machine.block.base ≤ p
      → p + 64 ≤ l.machine.block.base + l.machine.memory.n_bytes
      → HasCode l.machine p c
      → offset_in address p l ≡ did (inside address p c) l
  unfolding offset_in simple_elem_array_len
  offset_in_lem p c from fits (at_code, above, below, len, short, whole_code) =
      rw
        (
          read_4_ze_lem l.machine (p + 52) (omega arith) (omega arith),
          at_code,
          host_address_lem l.machine c.at (omega arith) (omega arith) below (omega arith),
          back,
          read_4_ze_lem l.machine (c.at - 8) (omega arith) (omega arith),
          len,
          whole_end,
        )
        (elim (Bool-cases (leb c.at address && ltb address (c.at + c.bytes))) [
          | inl within ↦ rw (within, offset within) refl
          | inr outside ↦ rw outside refl
        ])
    where
      whole_end : add32 c.at c.bytes ≡ c.at + c.bytes
      whole_end = omega arith

      offset :
          leb c.at address && ltb address (c.at + c.bytes) ≡ true
          → int32 (sub32 address c.at) ≡ pos (address - c.at)
      offset within = ground arith

      back : c.at - 16 + 8 ≡ c.at - 8
      back = omega arith

  -- Where the modules of the list lie at growing addresses in a mapped memory and each leads to an
  -- array of code there, whose end does not wrap round, find_module_and_offset gives for an
  -- address the first module in whose code it lies with the offset from the beginning of the code,
  -- or none if it lies in no code, and changes nothing.
  pub find_module_and_offset-locate :
      (ms : List (ℕ × Code))
      → Modules l.machine l.module_list (addresses ms)
      → All (HasCode l.machine) ms
      → find_module_and_offset address l ≡ did (locate address ms) l
  unfolding find_module_and_offset
  find_module_and_offset-locate =
      each_module-first_some l is (offset_in address) (inside address) (HasCode l.machine)
        offset_in_lem
