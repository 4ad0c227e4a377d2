-- ===== src/O3/Unchecked.antt =====
-- loader/o3.cpp: the check of the fingerprint of an imported structure, which tests bits of a kind that is
-- a number from 1 to 10.
use oberon.Prelude.{
  true, false, Bool, ℕ, zero, suc, ◌+◌, ◌*◌, ◌≤◌, ◌<◌, ◌≡◌, refl, arith, List, [], ◌∷◌, some, inl,
  inr, bit_and,
}
use oberon.Prelude.Int.{ℤ}
use oberon.Prelude.Text.{length, same_text}
use oberon.Prelude.Tests.{◌==◌, Bool-cases}
use oberon.Machine.State.{Machine, returns}
use oberon.Machine.Memory.{load4}
use oberon.Heap.Tiles.{host_address_lem, read_4_ze_lem}
use oberon.Heap.Tags.{bit_and_high}
use oberon.O3.Layout.{same_string, equal_strings}
use oberon.O3.Loader.{Loader, did, for_each}
use oberon.O3.Uses.{check_export, check_structure_fingerprint}
use oberon.O3.Chain.{IsMapped}
use oberon.O3.Found.{Text, byte_lem}
use oberon.O3.Exports.{
  Entry, Table, HasExports, table_lem, len_lem, rounds_lem, half_lem, Text-below,
}

-- The kinds that read_symbol_info accepts are below 11.
abbrev pub SmallKinds : List Entry → Type 0
SmallKinds [] = Unit {0}
SmallKinds (x ∷ xs) = (x.kind < 64) × SmallKinds xs

no_bits : (k : ℕ) → k < 64 → (bit_and k 192 == 0) ≡ true
no_bits k h = rw (bit_and_high 2 6 k) (ground arith)

module _ (m : Machine) (is : IsMapped m) where
  open is use {positive, whole, small}

  -- Two strings of the memory are compared to their end.
  pub equal_strings_lem :
      (s t : List ℕ) (n a b : ℕ)
      → m.block.base ≤ a
      → m.block.base ≤ b
      → Text m.bytes (m.block.base + m.memory.n_bytes) a s
      → Text m.bytes (m.block.base + m.memory.n_bytes) b t
      → length s < n
      → equal_strings n a b m ≡ returns (same_text s t) m
  unfolding equal_strings
  equal_strings_lem s t zero a b at bt ta tb enough = absurd (omega arith)
  equal_strings_lem [] [] (suc n) a b at bt (ia, ea) (ib, eb) enough =
      rw (byte_lem m is a at ia, ea, byte_lem m is b bt ib, eb) refl
  equal_strings_lem [] (d ∷ ds) (suc n) a b at bt (ia, ea) (ib, eb, pb, tb) enough =
      rw (byte_lem m is a at ia, ea, byte_lem m is b bt ib, eb, other) refl
    where
      other : (0 == d) ≡ false
      other = ground arith
  equal_strings_lem (c ∷ cs) [] (suc n) a b at bt (ia, ea, pa, ta) (ib, eb) enough =
      rw (byte_lem m is a at ia, ea, byte_lem m is b bt ib, eb, other) refl
    where
      other : (c == 0) ≡ false
      other = ground arith
  equal_strings_lem (c ∷ cs) (d ∷ ds) (suc n) a b at bt (ia, ea, pa, ta) (ib, eb, pb, tb) enough =
      rw (byte_lem m is a at ia, ea, byte_lem m is b bt ib, eb)
        (elim (Bool-cases (c == d)) [
          | inl e ↦
              rw (e, more)
                (equal_strings_lem cs ds n (a + 1) (b + 1) (omega arith) (omega arith) ta tb
                  (omega arith))
          | inr e ↦ rw e refl
        ])
    where
      more : (c == 0) ≡ false
      more = ground arith

Text-length : (b : ℕ → ℕ) (hi a : ℕ) (s : List ℕ) → Text b hi a s → a + length s < hi
Text-length b hi a [] h = omega (arith, h.0)
Text-length b hi a (c ∷ cs) h = omega (arith, Text-length b hi (a + 1) cs h.3)

module _ (l : Loader) (is : IsMapped l.machine) (q p : ℕ) (all : List Entry)
    (has : HasExports l.machine q p all) (at : ℕ) (s : List ℕ) (from : l.machine.block.base ≤ at)
    (text : Text l.machine.bytes (l.machine.block.base + l.machine.memory.n_bytes) at s) (fp : ℤ)
    (priv : Bool) where
  open is use {positive, whole, small}

  check_export_lem :
      (i : ℕ) (x : Entry) (xs : List Entry)
      → Table l.machine p i (x ∷ xs)
      → x.kind < 64
      → check_export (some p) (some at) fp priv i l ≡ did tt l
  unfolding check_export same_string
  check_export_lem i x xs (fits, named, ntext, adr, kind, table) low =
      rw
        (
          read_4_ze_lem l.machine (p + i * 20 + 0) (omega (arith, has.from)) (omega arith),
          host_address_lem l.machine (load4 l.machine.bytes (p + i * 20 + 0)) (omega arith) named
              (Text-below l.machine.bytes (l.machine.block.base + l.machine.memory.n_bytes)
                (load4 l.machine.bytes (p + i * 20 + 0)) x.name ntext)
              (omega (
                arith,
                Text-below l.machine.bytes (l.machine.block.base + l.machine.memory.n_bytes)
                    (load4 l.machine.bytes (p + i * 20 + 0)) x.name ntext,
              )),
          equal_strings_lem l.machine is s x.name (suc l.machine.block.size) at
              (load4 l.machine.bytes (p + i * 20 + 0)) from named text ntext
              (omega (
                arith,
                Text-length l.machine.bytes (l.machine.block.base + l.machine.memory.n_bytes) at s
                    text,
              )),
        )
        (elim (Bool-cases (same_text s x.name)) [
          | inl e ↦
              rw
                (
                  e,
                  half_lem l.machine is (p + i * 20 + 16) (omega (arith, has.from)) (omega arith),
                  kind,
                  no_bits x.kind low,
                )
                refl
          | inr e ↦ rw e refl
        ])

  checks_lem :
      (i : ℕ) (xs : List Entry)
      → Table l.machine p i xs
      → SmallKinds xs
      → for_each (length xs) i (check_export (some p) (some at) fp priv) l ≡ did tt l
  checks_lem i [] table low = refl
  checks_lem i (x ∷ xs) table (low, lows) =
      rw (check_export_lem i x xs table low) (checks_lem (i + 1) xs table.5 lows)

  -- In a mapped memory where a module has a table of fewer than 2^31 exports whose names can be
  -- read and whose kinds are below 64, check_structure_fingerprint of a name there accepts every
  -- fingerprint and changes nothing.
  pub fingerprint_unchecked :
      SmallKinds all → check_structure_fingerprint (some q) (some at) fp priv l ≡ did tt l
  unfolding check_structure_fingerprint
  fingerprint_unchecked lows =
      rw
        (
          read_4_ze_lem l.machine (q + 20) (omega (arith, has.above)) (omega (arith, has.inside)),
          has.at,
          table_lem l.machine is q p all has,
          len_lem l.machine is q p all has,
          rounds_lem l.machine is q p all has,
        )
        (checks_lem 0 all has.table lows)
