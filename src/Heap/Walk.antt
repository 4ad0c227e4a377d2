-- ===== src/Heap/Walk.antt =====
-- loader/heap.cpp: internal_dump, the walk over the blocks of the heap, without its output.
use oberon.Prelude.{
  ℕ, zero, suc, ◌+◌, ◌-◌, ◌%◌, Bool, ◌||◌, Option, none, some, List, [], ◌∷◌, bit_and, not,
}
use oberon.Prelude.Tests.{◌==◌, ltb, if◌then◌else◌}
use oberon.Prelude.Int.{pos, negsuc}
use oberon.Prelude.Word.{int32, not32}
use oberon.Machine.State.{M, pure, halt, undefined, assert, ◌>>=◌, ◌>>◌}
use oberon.Machine.Memory.{Haddr, read_4_ze}
use oberon.Heap.{
  allocation_block_size, blk_syst, blk_free, blk_aray, tag_mask, host_address, marked_array,
}

-- The four ways to print a block: "sblk", "ablk", "fblk" and "dblk".
pub data Kind : Type 0 where
  sblk ablk fblk dblk : Kind

pub record Block : Type 0 where
  pub kind : Kind
  pub size : ℕ

abbrev pub flags : ℕ → ℕ
flags tag = bit_and tag (not32 tag_mask)

abbrev pub is_array_tag : ℕ → Bool
is_array_tag tag = flags tag == marked_array || flags tag == blk_aray

-- `p[n]` in words of a pointer that may be NULL.
abbrev pub word_at : Haddr → (ℕ → ℕ) → M ℕ
word_at none f = halt undefined
word_at (some p) f = read_4_ze (some (f p))

unfoldable pub array_block : ℕ → ℕ → M Block
array_block hb htag = do
  bsize ← read_4_ze (some (hb + 4))
  let array_data = bit_and htag tag_mask
  array_data_ptr ← host_address array_data
  assert (is_array_tag htag)
  assert (bit_and array_data tag_mask % allocation_block_size == 0)
  tdadr ← word_at array_data_ptr (λ p. p - 4)
  assert (is_array_tag tdadr)
  pure (record { kind = ablk; size = bsize })

-- The size of a record stands in its type descriptor.
unfoldable pub record_block : ℕ → M Block
record_block htag = do
  td_addr ← host_address (bit_and htag tag_mask)
  bsize ← word_at td_addr (λ p. p + 16)
  pure (record { kind = dblk; size = bsize })

unfoldable pub block_at : ℕ → M Block
block_at hb = do
  htag ← read_4_ze (some hb)
  if not (bit_and blk_syst htag == 0)
      then pure (record { kind = sblk; size = bit_and htag tag_mask })
      else if not (bit_and blk_aray htag == 0)
      then array_block hb htag
      else if not (bit_and blk_free htag == 0)
      then pure (record { kind = fblk; size = bit_and htag tag_mask })
      else record_block htag

-- `hb += bsize`, where `bsize` is an `int32`.
abbrev pub moved : ℕ → ℕ → ℕ
moved hb bsize = elim (int32 bsize) [ pos n ↦ hb + n | negsuc n ↦ hb - (n + 1) ]

abbrev pub with_block : Block → Option (List Block) → Option (List Block)
with_block b none = none
with_block b (some bs) = some (b ∷ bs)

-- The loop of internal_dump; `none` means that the fuel ran out.
unfoldable pub walk : ℕ → ℕ → ℕ → M (Option (List Block))
walk zero hb he = pure none
walk (suc n) hb he =
    if ltb hb he
    then (do b ← block_at hb; bs ← walk n (moved hb b.size) he; pure (with_block b bs))
    else pure (some [])
