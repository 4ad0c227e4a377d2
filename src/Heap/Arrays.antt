-- ===== src/Heap/Arrays.antt =====
-- loader/heap.cpp: the arrays, the descriptors and the modules that the loader allocates.
use oberon.Prelude.{ℕ, suc, ◌+◌, ◌-◌, ◌*◌, ◌%◌, Bool, false, none, some, List, [], ◌∷◌, bit_or}
use oberon.Prelude.Tests.{◌==◌, if◌then◌else◌}
use oberon.Prelude.Int.{pos, pos_part}
use oberon.Prelude.Word.{uint8, checked}
use oberon.O3.{add}
use oberon.Machine.State.{M, pure, halt, fatal, defined, assert, ◌>>=◌, ◌>>◌}
use oberon.Machine.Memory.{Haddr, read_4_ze, write_1, write_4}
use oberon.Heap.{
  Heap, allocation_block_size, blk_mark, marked_array, heap_address, system_new, new_array,
}

-- `&p[-n]` of a pointer.
abbrev pub before : Haddr → ℕ → Haddr
before none n = none
before (some p) n = some (p - n)

abbrev pub flags_of : Bool → ℕ
flags_of is_array = if is_array then marked_array else blk_mark

-- `reinterpret_cast<md::uint32 *>(p)[-1]` is the tag.
unfoldable pub fixup_td : Haddr → Haddr → Bool → M (Unit {0})
fixup_td p td_adr is_array = do
  td ← heap_address td_adr
  assert (td % allocation_block_size == 0)
  elim p [
    | none ↦ pure tt
    | some q ↦ do a ← heap_address td_adr; write_4 (some (q - 4)) (bit_or a (flags_of is_array))
  ]

unfoldable pub new_module : Heap → Haddr → ℕ → M (ℕ × Heap)
unfolding fixup_td system_new
new_module heap td_adr unpadded_record_size = do
  (adr, heap') ← system_new heap unpadded_record_size
  fixup_td (some adr) td_adr false
  pure (adr, heap')

unfoldable pub alignment_check : Haddr → M (Unit {0})
alignment_check none = pure tt
alignment_check (some adr) = do
  v ← heap_address (some adr)
  if v % allocation_block_size == 0 then pure tt else halt fatal

-- The words of a structure, from an address on.
abbrev pub write_words : ℕ → List ℕ → M (Unit {0})
write_words p [] = pure tt
write_words p (w ∷ ws) = write_4 (some p) w >> write_words (p + 4) ws

abbrev pub deadbeef : ℕ
deadbeef = 0xdeadbeef

-- simple_elem_open_array_t has 16 bytes, the other two descriptors 32.
abbrev pub sizeof_simple : ℕ
sizeof_simple = 16

abbrev pub sizeof_record : ℕ
sizeof_record = 32

abbrev pub sizeof_pointer : ℕ
sizeof_pointer = 32

-- `n * m` of `int`.
abbrev pub product : ℕ → ℕ → M ℕ
product n m = do p ← defined (checked (pos (n * m))); pure (pos_part p)

abbrev pub sum : ℕ → ℕ → M ℕ
sum n m = do p ← defined (add (pos n) (pos m)); pure (pos_part p)

abbrev pub no_array : Heap → M (Haddr × Heap)
no_array heap = pure (none, heap)

unfoldable pub new_simple_elem_array : Heap → ℕ → ℕ → Haddr → M (Haddr × Heap)
new_simple_elem_array heap n_elements elem_size td_adr = do
  aligned ← heap_address td_adr
  assert (aligned % allocation_block_size == 0)
  size_in_bytes ← product n_elements elem_size
  (result, heap') ← if size_in_bytes == 0 then pure (none, heap) else (do
    size ← sum size_in_bytes sizeof_simple
    (blk, block_size, heap') ← new_array heap size sizeof_simple
    td ← heap_address td_adr
    write_words blk (block_size ∷ deadbeef ∷ n_elements ∷ bit_or td marked_array ∷ [])
    pure (some (blk + sizeof_simple), heap'))
  alignment_check result
  pure (result, heap')

unfoldable pub new_record_elem_array : Heap → ℕ → ℕ → Haddr → M (Haddr × Heap)
new_record_elem_array heap n_elements elem_size td_adr = do
  aligned ← heap_address td_adr
  assert (aligned % allocation_block_size == 0)
  size ← product n_elements elem_size
  (result, heap') ← if size == 0 then pure (none, heap) else (do
    total ← sum size sizeof_record
    (blk, block_size, heap') ← new_array heap total sizeof_record
    td ← heap_address td_adr
    write_words blk (
        block_size
        ∷ n_elements
        ∷ 0
        ∷ 0
        ∷ deadbeef
        ∷ deadbeef
        ∷ n_elements
        ∷ bit_or td marked_array
        ∷ [])
    pure (some (blk + sizeof_record), heap'))
  alignment_check result
  pure (result, heap')

-- The size of an element is not used: pointers have four bytes.
unfoldable pub new_pointer_elem_array : Heap → ℕ → ℕ → Haddr → M (Haddr × Heap)
new_pointer_elem_array heap n_elements elem_size td_adr = do
  aligned ← heap_address td_adr
  assert (aligned % allocation_block_size == 0)
  size ← product n_elements 4
  (result, heap') ← if size == 0 then pure (none, heap) else (do
    td ← heap_address td_adr
    total ← sum size sizeof_pointer
    (blk, block_size, heap') ← new_array heap total sizeof_pointer
    write_words blk (
        block_size
        ∷ n_elements
        ∷ 0
        ∷ deadbeef
        ∷ deadbeef
        ∷ deadbeef
        ∷ n_elements
        ∷ bit_or td marked_array
        ∷ [])
    pure (some (blk + sizeof_pointer), heap'))
  alignment_check result
  pure (result, heap')

-- The field `bound` of the descriptor before the data, of the three kinds in turn.
unfoldable pub simple_elem_array_len : Haddr → M ℕ
simple_elem_array_len none = halt fatal
simple_elem_array_len (some p) = read_4_ze (some (p - sizeof_simple + 8))

unfoldable pub record_elem_array_len : Haddr → M ℕ
record_elem_array_len none = halt fatal
record_elem_array_len (some p) = read_4_ze (some (p - sizeof_record + 24))

unfoldable pub pointer_elem_array_len : Haddr → M ℕ
pointer_elem_array_len none = halt fatal
pointer_elem_array_len (some p) = read_4_ze (some (p - sizeof_pointer + 24))

-- `strcpy` of a string of bytes other than 0, with the 0 at its end.
abbrev pub strcpy : ℕ → List ℕ → M (Unit {0})
strcpy p [] = write_1 (some p) 0
strcpy p (c ∷ cs) = write_1 (some p) (uint8 c) >> strcpy (p + 1) cs

abbrev pub string_length : List ℕ → ℕ
string_length [] = 0
string_length (c ∷ cs) = suc (string_length cs)

unfoldable pub copy_command_line : Heap → List ℕ → M (ℕ × Heap)
unfolding system_new heap_address
copy_command_line heap command_line = do
  (block, heap') ← system_new heap (string_length command_line + 1)
  result ← heap_address (some block)
  strcpy block command_line
  pure (result, heap')
