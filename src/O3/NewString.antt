-- ===== src/O3/NewString.antt =====
-- loader/o3.cpp: a new string of the heap is read back as the string that it was made from.
use oberon.Prelude.{
  ap, ◌-◌, ◌++◌, ℕ, ◌+◌, ◌*◌, ◌≤◌, ◌<◌, ◌≡◌, refl, ◌∙◌, arith, true, some, List, [], ◌∷◌, ◌⊎◌,
}
use oberon.Prelude.Tests.{leb}
use oberon.Prelude.Text.{length}
use oberon.Prelude.Word.{uint8}
use oberon.Machine.State.{Machine, returns, returns->>}
use oberon.Machine.Memory.{store1, with_bytes, write_1}
use oberon.Heap.{Heap}
use oberon.Heap.Arrays.{strcpy, simple_elem_array_len}
use oberon.Heap.Size.{block_size}
use oberon.Heap.Allocated.{IsHeap, HasRoom, advanced, heap_address_lem}
use oberon.Heap.Tiles.{host_address_lem, read_4_ze_lem}
use oberon.Heap.Walk.{Block, ablk}
use oberon.Heap.Laid.{Laid, Same, load4-Same}
use oberon.Heap.Filled.{IsDescriptor, simple_elem, array_size, simple_words, new_simple_lem}
use oberon.Heap.Described.{described, tagged, described-IsHeap, filled-Laid, load4-with_words}
use oberon.Objio.Strings.{IsString}
use oberon.O3.Input.{name_len}
use oberon.O3.Allocations.{new_string}
use oberon.O3.Loader.{Loader, did}
use oberon.O3.Found.{Text}

-- The bytes once the string stands at `p`.
abbrev pub with_text : (ℕ → ℕ) → ℕ → List ℕ → ℕ → ℕ
with_text b p [] = store1 b p 0
with_text b p (c ∷ cs) = with_text (store1 b p (uint8 c)) (p + 1) cs

write_1_lem :
    (m : Machine) (p v : ℕ)
    → m.block.base ≤ p
    → p + 1 ≤ m.block.base + m.block.size
    → write_1 (some p) v m ≡ returns tt (with_bytes (store1 m.bytes p v) m)
unfolding write_1
write_1_lem m p v lo hi = ground arith

strcpy_lem :
    (s : List ℕ) (p : ℕ) (m : Machine)
    → m.block.base ≤ p
    → p + length s + 1 ≤ m.block.base + m.block.size
    → strcpy p s m ≡ returns tt (with_bytes (with_text m.bytes p s) m)
strcpy_lem [] p m lo hi = write_1_lem m p 0 lo (omega arith)
strcpy_lem (c ∷ cs) p m lo hi =
    returns->> (write_1 (some p) (uint8 c)) (strcpy (p + 1) cs)
      (write_1_lem m p (uint8 c) lo (omega arith))
    ∙ strcpy_lem cs (p + 1) (with_bytes (store1 m.bytes p (uint8 c)) m) (omega arith) (omega arith)

-- Bytes before and behind the string are not touched.
with_text_outside :
    (s : List ℕ) (b : ℕ → ℕ) (p q : ℕ)
    → ((q < p) ⊎ (p + length s + 1 ≤ q))
    → with_text b p s q ≡ b q
with_text_outside [] b p q h = ground arith
with_text_outside (c ∷ cs) b p q h =
    with_text_outside cs (store1 b p (uint8 c)) (p + 1) q (omega arith) ∙ ground arith

Text-with_text :
    (s : List ℕ) (b : ℕ → ℕ) (hi p : ℕ)
    → IsString s
    → p + length s < hi
    → Text (with_text b p s) hi p s
Text-with_text [] b hi p is below = (omega arith, ground arith)
Text-with_text (c ∷ cs) b hi p (positive, small, is) below = (
  omega arith,
  rw (with_text_outside cs (store1 b p (uint8 c)) (p + 1) p (omega arith)) (ground arith),
  positive,
  Text-with_text cs (store1 b p (uint8 c)) hi (p + 1) is (omega arith),
)

-- The string is written inside the block before the free one.
IsHeap-with_text :
    (heap : Heap) (m : Machine) (is : IsHeap heap m) (s : List ℕ) (p : ℕ)
    → p + length s + 1 ≤ heap.curr_heap
    → IsHeap heap (with_bytes (with_text m.bytes p s) m)
IsHeap-with_text heap m is s p below = record {
  positive = is.positive;
  base_aligned = is.base_aligned;
  whole = is.whole;
  mapped = is.mapped;
  small = is.small;
  first = is.first;
  from = is.from;
  curr_aligned = is.curr_aligned;
  inside = is.inside;
  free =
      rw
        (
          with_text_outside s m.bytes p heap.curr_heap (omega arith),
          with_text_outside s m.bytes p (heap.curr_heap + 1) (omega arith),
          with_text_outside s m.bytes p (heap.curr_heap + 2) (omega arith),
          with_text_outside s m.bytes p (heap.curr_heap + 3) (omega arith),
        )
        is.free;
}

-- The block of the string.
abbrev pub string_block : List ℕ → Block
string_block s = record { kind = ablk; size = array_size simple_elem (length s + 1) 1 }

-- What new_string leaves: the string at its address, a well-formed heap of one more block, and an
-- array of as many elements as the string has bytes with its 0.
pub record HasString (l : Loader) (xs : List Block) (s : List ℕ) (l' : Loader) : Type 0 where
  pub text :
      Text l'.machine.bytes
        (l'.machine.block.base + l'.machine.memory.n_bytes)
        (l.heap.curr_heap + 20)
        s
  pub heap : IsHeap l'.heap l'.machine
  pub laid : Laid l'.heap l'.machine (xs ++ (string_block s ∷ []))
  pub len :
      simple_elem_array_len (some (l.heap.curr_heap + 20)) l'.machine
      ≡ returns (length s + 1) l'.machine

module _ (l : Loader) (is : IsHeap l.heap l.machine) (has : IsDescriptor l.machine (l.td_adr 12))
    (xs : List Block) (laid : Laid l.heap l.machine xs) (s : List ℕ) (plain : IsString s)
    (short : length s < name_len)
    (room : HasRoom l.heap l.machine (array_size simple_elem (length s + 1) 1)) where
  abbrev n : ℕ
  n = (length s + 1) * 1 + 16

  abbrev ws : List ℕ
  ws = simple_words (block_size n) (length s + 1) (l.td_adr 12)

  abbrev p : ℕ
  p = l.heap.curr_heap + 4 + 16

  -- The machine with the array, and with the string in it.
  abbrev allocated : Machine
  allocated = with_bytes (described l.heap l.machine n ws) l.machine

  abbrev named : Machine
  named = with_bytes (with_text allocated.bytes p s) l.machine

  abbrev heap' : Heap
  heap' = advanced l.heap (block_size n)

  is' : IsHeap heap' allocated
  is' = described-IsHeap l.heap l.machine is n (omega arith) room ws (omega arith) refl

  before : Same p allocated.bytes named.bytes
  before q h = with_text_outside s allocated.bytes p q (omega arith)

  named-Laid : Laid heap' named (xs ++ (string_block s ∷ []))
  named-Laid =
      filled-Laid l.heap l.machine is n (omega arith) room ws (omega arith) refl named.bytes
        (l.td_adr 12) 3 xs before laid refl refl refl has.aligned
        (omega (arith, has.upto, is.small, is.mapped))

  len_at : simple_elem_array_len (some p) named ≡ returns (length s + 1) named
  unfolding simple_elem_array_len
  len_at =
      read_4_ze_lem named (p - 16 + 8) (omega (arith, is.first, is.from))
        (omega (arith, is'.inside, is'.mapped))
      ∙ ap (λ v. returns v named)
          (load4-Same p allocated.bytes named.bytes before (p - 16 + 8) (omega arith)
            ∙ load4-with_words ws (tagged l.heap l.machine n ws) (l.heap.curr_heap + 4) (p - 16 + 8)
                2 (length s + 1) (omega arith) refl (omega arith))

  -- In a well-formed heap that consists of given blocks, with the aligned descriptor td_refs in it
  -- and room for the block, new_string of fewer than 32 bytes other than 0 returns the address of
  -- the data of a new array block behind the others, where the memory then has exactly this string
  -- and its 0; the heap is well formed and consists of the given blocks and the new one, and the
  -- length of the array is the number of bytes with the 0.
  pub new_string-Text :
      (l' : Loader) × (new_string s l ≡ did (l.heap.curr_heap + 20) l') × HasString l xs s l'
  unfolding new_string
  new_string-Text =
      let same : p ≡ l.heap.curr_heap + 20 = omega arith in
      (
        record l { machine = named; heap = heap' },
        rw
            (
              enough,
              host_address_lem l.machine (l.td_adr 12) (omega (arith, is.positive, has.from))
                  has.from has.upto (omega (arith, is.small, is.mapped, has.upto)),
              new_simple_lem l.heap l.machine is (l.td_adr 12) has (length s + 1) 1 (omega arith)
                  (omega arith) room,
              strcpy_lem s p allocated (omega (arith, is'.first, is.from))
                  (omega (arith, is'.inside, is'.mapped)),
              heap_address_lem named p (omega (arith, is'.positive, is'.first, is.from))
                  (omega (arith, is'.first, is.from)) (omega (arith, is'.inside))
                  (omega (arith, is'.inside, is'.mapped, is'.small)),
              same,
            )
            refl,
        record {
          text = rw (← same) (
              Text-with_text s allocated.bytes (l.machine.block.base + l.machine.memory.n_bytes) p
                plain (omega (arith, is'.inside)));
          heap = IsHeap-with_text heap' allocated is' s p (omega arith);
          laid = named-Laid;
          len = rw (← same) len_at;
        },
      )
    where
      enough : leb (length s + 1) name_len ≡ true
      enough = ground arith
