-- ===== src/O3/Exports.antt =====
-- loader/o3.cpp: the exports of a module as a table of names, which is searched for a procedure and for a
-- structure.
use oberon.Prelude.{
  false, ℕ, ◌+◌, ◌-◌, ◌*◌, ◌^◌, ◌≤◌, ◌<◌, ◌≡◌, refl, ap, ◌∙◌, arith, List, [], ◌∷◌, Option, none,
  some, inl, inr,
}
use oberon.Prelude.Int.{pos}
use oberon.Prelude.Text.{length, same_text}
use oberon.Prelude.Tests.{◌==◌, if◌then◌else◌, Bool-cases}
use oberon.Machine.State.{Machine, returns}
use oberon.Machine.Memory.{load2, load4, read_2_ze}
use oberon.Heap.{host_address}
use oberon.Heap.Arrays.{record_elem_array_len}
use oberon.Heap.Tiles.{host_address_lem, read_4_ze_lem}
use oberon.O3.Layout.{literal, same_string, get_module_export, get_export_name}
use oberon.O3.Loader.{Loader, did, find_each, rounds_below}
use oberon.O3.Descriptors.{get_function_address, exported}
use oberon.O3.Chain.{IsMapped}
use oberon.O3.Found.{Text, Positive, equals_lem}

-- What is known of an export_t.
pub record Entry : Type 0 where
  pub name : List ℕ
  pub adr : ℕ
  pub kind : ℕ

-- The entries from the number `i` on of the table at `p`.
abbrev pub Table : Machine → ℕ → ℕ → List Entry → Type 0
Table m p i [] = Unit {0}
Table m p i (x ∷ xs) =
    let e = p + i * 20 in
    let hi = m.block.base + m.memory.n_bytes in
    (e + 20 ≤ hi)
    × (m.block.base ≤ load4 m.bytes (e + 0))
    × Text m.bytes hi (load4 m.bytes (e + 0)) x.name
    × (load4 m.bytes (e + 12) ≡ x.adr)
    × (load2 m.bytes (e + 16) ≡ x.kind)
    × Table m p (i + 1) xs

-- The module at `q` has the table at `p`, with its number of entries in the descriptor before it.
pub record HasExports (m : Machine) (q p : ℕ) (es : List Entry) : Type 0 where
  pub above : m.block.base ≤ q
  pub inside : q + 64 ≤ m.block.base + m.memory.n_bytes
  pub at : load4 m.bytes (q + 20) ≡ p
  pub from : m.block.base + 32 ≤ p
  pub upto : p < m.block.base + m.memory.n_bytes
  pub len : load4 m.bytes (p - 32 + 24) ≡ length es
  pub few : length es < 2 ^ 31
  pub table : Table m p 0 es

-- The address of the first entry of the name, and 0 if there is none.
abbrev pub address_of : List ℕ → List Entry → ℕ
address_of s [] = 0
address_of s (x ∷ xs) = if same_text s x.name then x.adr else address_of s xs

abbrev found_in : List ℕ → List Entry → Option ℕ
found_in s [] = none
found_in s (x ∷ xs) = if same_text s x.name then some x.adr else found_in s xs

-- 0 for no address.
abbrev pub or_zero : Option ℕ → ℕ
or_zero none = 0
or_zero (some a) = a

pub Text-below : (b : ℕ → ℕ) (hi a : ℕ) (s : List ℕ) → Text b hi a s → a < hi
Text-below b hi a [] h = h.0
Text-below b hi a (c ∷ cs) h = h.0

module _ (m : Machine) (is : IsMapped m) where
  open is use {positive, whole, small}

  pub half_lem :
      (a : ℕ)
      → m.block.base ≤ a
      → a + 2 ≤ m.block.base + m.memory.n_bytes
      → read_2_ze (some a) m ≡ returns (load2 m.bytes a) m
  unfolding read_2_ze
  half_lem a from below = ground arith

  -- The table, and its length.
  module _ (q p : ℕ) (es : List Entry) (has : HasExports m q p es) where
    open has use {above, inside, at, from, upto, len, few}

    pub table_lem : host_address p m ≡ returns (some p) m
    table_lem = host_address_lem m p (omega arith) (omega arith) upto (omega arith)

    pub len_lem : record_elem_array_len (some p) m ≡ returns (length es) m
    unfolding record_elem_array_len
    len_lem = rw (read_4_ze_lem m (p - 32 + 24) (omega arith) (omega arith), len) refl

    pub export_lem : (i : ℕ) → get_module_export q (pos i) m ≡ returns (p + i * 20) m
    unfolding get_module_export
    export_lem i = rw (read_4_ze_lem m (q + 20) (omega arith) (omega arith), at, table_lem) refl

    pub rounds_lem : rounds_below (length es) ≡ length es
    rounds_lem = ground arith

module _ (l : Loader) (is : IsMapped l.machine) (q p : ℕ) (all : List Entry)
    (has : HasExports l.machine q p all) where
  open is use {positive, whole, small}

  -- The name of an entry.
  pub name_lem :
      (i : ℕ) (x : Entry) (xs : List Entry)
      → Table l.machine p i (x ∷ xs)
      → get_export_name (p + i * 20) l.machine
        ≡ returns (some (load4 l.machine.bytes (p + i * 20 + 0))) l.machine
  unfolding get_export_name
  name_lem i x xs (fits, named, text, adr, kind, table) =
      let below =
        Text-below l.machine.bytes (l.machine.block.base + l.machine.memory.n_bytes)
          (load4 l.machine.bytes (p + i * 20 + 0)) x.name text in
      rw (read_4_ze_lem l.machine (p + i * 20 + 0) (omega (arith, has.from)) (omega arith)) (
        host_address_lem l.machine (load4 l.machine.bytes (p + i * 20 + 0)) (omega arith) named
          below (omega arith))

  module _ (s : List ℕ) (plain : Positive s) where
    exported_lem :
        (i : ℕ) (x : Entry) (xs : List Entry)
        → Table l.machine p i (x ∷ xs)
        → exported q (literal s) i l ≡ did (if same_text s x.name then some x.adr else none) l
    unfolding exported same_string
    exported_lem i x xs (fits, named, text, adr, kind, table) =
        rw
          (
            export_lem l.machine is q p all has i,
            name_lem i x xs (fits, named, text, adr, kind, table),
            equals_lem l.machine is s x.name (load4 l.machine.bytes (p + i * 20 + 0)) plain named
                text,
          )
          (elim (Bool-cases (same_text s x.name)) [
            | inl e ↦
                rw
                  (
                    e,
                    read_4_ze_lem l.machine (p + i * 20 + 12) (omega (arith, has.from))
                        (omega arith),
                    adr,
                  )
                  refl
            | inr e ↦ rw e refl
          ])

    search_lem :
        (i : ℕ) (xs : List Entry)
        → Table l.machine p i xs
        → find_each (length xs) i (exported q (literal s)) l ≡ did (found_in s xs) l
    search_lem i [] table = refl
    search_lem i (x ∷ xs) table =
        rw (exported_lem i x xs table) (elim (Bool-cases (same_text s x.name)) [
          | inl e ↦ rw e refl
          | inr e ↦ rw e (search_lem (i + 1) xs table.5)
        ])

    address_found : (xs : List Entry) → or_zero (found_in s xs) ≡ address_of s xs
    address_found [] = refl
    address_found (x ∷ xs) = elim (Bool-cases (same_text s x.name)) [
      | inl e ↦ rw e refl
      | inr e ↦ rw e (address_found xs)
    ]

    nonzero : (p == 0) ≡ false
    nonzero = ground (arith, has.from)

    get_function_address_lem :
        (o : Option ℕ)
        → found_in s all ≡ o
        → get_function_address q (literal s) l ≡ did (or_zero o) l
    unfolding get_function_address
    get_function_address_lem none e =
        rw
          (
            read_4_ze_lem l.machine (q + 20) (omega (arith, has.above)) (omega (arith, has.inside)),
            has.at,
            nonzero,
            read_4_ze_lem l.machine (q + 20) (omega (arith, has.above)) (omega (arith, has.inside)),
            has.at,
            table_lem l.machine is q p all has,
            len_lem l.machine is q p all has,
            rounds_lem l.machine is q p all has,
            search_lem 0 all has.table,
            e,
          )
          refl
    get_function_address_lem (some a) e =
        rw
          (
            read_4_ze_lem l.machine (q + 20) (omega (arith, has.above)) (omega (arith, has.inside)),
            has.at,
            nonzero,
            read_4_ze_lem l.machine (q + 20) (omega (arith, has.above)) (omega (arith, has.inside)),
            has.at,
            table_lem l.machine is q p all has,
            len_lem l.machine is q p all has,
            rounds_lem l.machine is q p all has,
            search_lem 0 all has.table,
            e,
          )
          refl

    -- In a mapped memory where a module has a table of fewer than 2^31 exports whose names can be
    -- read, get_function_address of a name without a byte 0 is the address of the first export of
    -- that name, or 0 if there is none, and changes nothing.
    pub get_function_address-address_of :
        get_function_address q (literal s) l ≡ did (address_of s all) l
    get_function_address-address_of =
        get_function_address_lem (found_in s all) refl ∙ ap (λ a. did a l) (address_found all)
