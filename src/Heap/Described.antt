-- ===== src/Heap/Described.antt =====
-- loader/heap.cpp: an array block with the descriptor before its data.
use oberon.Prelude.{
  ℕ, zero, suc, ◌+◌, ◌-◌, ◌*◌, ◌%◌, ◌^◌, ◌≤◌, ◌<◌, ◌≡◌, refl, ◌⊎◌, ◌∙◌, arith, none, some, Option,
  List, [], ◌∷◌, ◌++◌,
}
use oberon.Machine.State.{Machine, returns, returns->>}
use oberon.Machine.Memory.{load4, with_bytes, store4, write_4}
use oberon.Machine.RoundTrip.{load4-store4, load4-store4_apart, store4_outside}
use oberon.Heap.{Heap, new_array}
use oberon.Heap.Size.{block_size, align_block_size_lem}
use oberon.Heap.Tags.{tag_sum}
use oberon.Heap.Arrays.{write_words}
use oberon.Heap.Allocated.{
  IsHeap, HasRoom, advanced, free_space, freed, get_heap_block_lem, IsHeap-advanced, freed_tag,
  freed_below, heap_address_lem, write_4_lem,
}
use oberon.Heap.Walk.{ablk, Block}
use oberon.Heap.Laid.{load4-Same, Laid, Same, Laid-snoc}

abbrev pub count : List ℕ → ℕ
count [] = 0
count (w ∷ ws) = suc (count ws)

-- The bytes once the words stand from `p` on.
abbrev pub with_words : (ℕ → ℕ) → ℕ → List ℕ → ℕ → ℕ
with_words b p [] = b
with_words b p (w ∷ ws) = with_words (store4 b p w) (p + 4) ws

pub write_words_lem :
    (ws : List ℕ) (p : ℕ) (m : Machine)
    → m.block.base ≤ p
    → p + count ws * 4 ≤ m.block.base + m.block.size
    → write_words p ws m ≡ returns tt (with_bytes (with_words m.bytes p ws) m)
write_words_lem [] p m lo hi = refl
write_words_lem (w ∷ ws) p m lo hi =
    returns->> (write_4 (some p) w) (write_words (p + 4) ws) (write_4_lem m p w lo (omega arith))
    ∙ write_words_lem ws (p + 4) (with_bytes (store4 m.bytes p w) m) (omega arith) (omega arith)

pub with_words_outside :
    (ws : List ℕ) (b : ℕ → ℕ) (p q : ℕ)
    → ((q < p) ⊎ (p + count ws * 4 ≤ q))
    → with_words b p ws q ≡ b q
with_words_outside [] b p q h = refl
with_words_outside (w ∷ ws) b p q h =
    with_words_outside ws (store4 b p w) (p + 4) q (omega arith)
    ∙ store4_outside b p w q (omega arith)

pub load4-with_words_outside :
    (ws : List ℕ) (b : ℕ → ℕ) (p q : ℕ)
    → ((q + 4 ≤ p) ⊎ (p + count ws * 4 ≤ q))
    → load4 (with_words b p ws) q ≡ load4 b q
load4-with_words_outside [] b p q h = refl
load4-with_words_outside (w ∷ ws) b p q h =
    load4-with_words_outside ws (store4 b p w) (p + 4) q (omega arith)
    ∙ load4-store4_apart b p w q (omega arith)

abbrev pub nth : List ℕ → ℕ → Option ℕ
nth [] i = none
nth (w ∷ ws) zero = some w
nth (w ∷ ws) (suc i) = nth ws i

-- A word that was written is read.
pub load4-with_words :
    (ws : List ℕ) (b : ℕ → ℕ) (p q i w : ℕ)
    → q ≡ p + i * 4
    → nth ws i ≡ some w
    → w < 2 ^ 32
    → load4 (with_words b p ws) q ≡ w
load4-with_words [] b p q i w at e small = ground arith
load4-with_words (v ∷ ws) b p q zero w at e small =
    load4-with_words_outside ws (store4 b p v) (p + 4) q (omega arith) ∙ first
  where
    same : q ≡ p
    same = omega arith

    first : load4 (store4 b p v) q ≡ w
    first = rw (same, load4-store4 b p v) (ground arith)
load4-with_words (v ∷ ws) b p q (suc i) w at e small =
    load4-with_words ws (store4 b p v) (p + 4) q i w (omega arith) e small

-- The bytes with the tag of an array of `n` bytes with its descriptor, and then with the descriptor.
abbrev pub tagged : Heap → Machine → ℕ → List ℕ → ℕ → ℕ
tagged heap m n ws =
    store4 (freed heap (block_size n) m) heap.curr_heap (heap.curr_heap + 4 + count ws * 4 + 9)

abbrev pub described : Heap → Machine → ℕ → List ℕ → ℕ → ℕ
described heap m n ws = with_words (tagged heap m n ws) (heap.curr_heap + 4) ws

module _ (heap : Heap) (m : Machine) (is : IsHeap heap m) (n : ℕ) (fits : n + 20 ≤ 2 ^ 31)
    (room : HasRoom heap m (block_size n)) (ws : List ℕ) (inside : count ws * 4 ≤ n)
    (descriptor : count ws * 4 % 16 ≡ 0) where
  open is use {positive, mapped, first, from, curr_aligned, base_aligned, small}

  abbrev size : ℕ
  size = block_size n

  abbrev data_at : ℕ
  data_at = heap.curr_heap + 4 + count ws * 4

  pub new_array_lem :
      new_array heap n (count ws * 4) m
      ≡ returns (heap.curr_heap + 4, size, advanced heap size) (with_bytes (tagged heap m n ws) m)
  unfolding new_array
  new_array_lem =
      rw
        (
          align_block_size_lem n m fits,
          get_heap_block_lem heap m is size (omega arith) room,
          descriptor,
          heap_address_lem (with_bytes (freed heap size m) m) data_at (omega arith) (omega arith)
              (omega arith) (omega arith),
          tag_sum data_at 9 (omega arith) (omega arith),
          write_4_lem (with_bytes (freed heap size m) m) heap.curr_heap (data_at + 9) (omega arith)
              (omega arith),
        )
        refl

  pub describe_lem :
      write_words (heap.curr_heap + 4) ws (with_bytes (tagged heap m n ws) m)
      ≡ returns tt (with_bytes (described heap m n ws) m)
  describe_lem =
      write_words_lem ws (heap.curr_heap + 4) (with_bytes (tagged heap m n ws) m) (omega arith)
        (omega arith)

  described_tag : load4 (described heap m n ws) heap.curr_heap ≡ data_at + 9
  described_tag =
      load4-with_words_outside ws (tagged heap m n ws) (heap.curr_heap + 4) heap.curr_heap
        (omega arith)
      ∙ rw (load4-store4 (freed heap size m) heap.curr_heap (data_at + 9)) (omega arith)

  still_free : load4 (described heap m n ws) (heap.curr_heap + size) ≡ free_space heap m - size + 4
  still_free =
      load4-with_words_outside ws (tagged heap m n ws) (heap.curr_heap + 4) (heap.curr_heap + size)
        (omega arith)
      ∙ (load4-store4_apart (freed heap size m) heap.curr_heap (data_at + 9) (heap.curr_heap + size)
            (omega arith)
          ∙ freed_tag heap m is size (omega arith) room)

  described-Same : Same heap.curr_heap m.bytes (described heap m n ws)
  described-Same q h =
      with_words_outside ws (tagged heap m n ws) (heap.curr_heap + 4) q (omega arith)
      ∙ (store4_outside (freed heap size m) heap.curr_heap (data_at + 9) q (omega arith)
          ∙ freed_below heap m is size (omega arith) room q (omega arith))

  pub described-IsHeap : IsHeap (advanced heap size) (with_bytes (described heap m n ws) m)
  described-IsHeap =
      IsHeap-advanced heap m is size (omega arith) room (described heap m n ws) still_free

  -- The first word is the size of the block, and the last the descriptor's tag. What is written
  -- behind the descriptor does not matter.
  pub filled-Laid :
      (b : ℕ → ℕ) (td : ℕ) (last : ℕ) (xs : List Block)
      → Same data_at (described heap m n ws) b
      → Laid heap m xs
      → nth ws 0 ≡ some size
      → nth ws last ≡ some (td + 9)
      → suc last ≡ count ws
      → td % 16 ≡ 0
      → td < 2 ^ 30
      → Laid
          (advanced heap size)
          (with_bytes b m)
          (xs ++ (record { kind = ablk; size = size } ∷ []))
  filled-Laid b td last xs same laid size_word td_word end td_aligned td_small =
      Laid-snoc heap m is xs laid size room (omega arith) b ablk
        (λ q h. same q (omega arith) ∙ described-Same q h) (omega arith)
        (
          data_at,
          load4-Same data_at (described heap m n ws) b same heap.curr_heap (omega arith)
              ∙ described_tag,
          load4-Same data_at (described heap m n ws) b same (heap.curr_heap + 4) (omega arith)
              ∙ load4-with_words ws (tagged heap m n ws) (heap.curr_heap + 4) (heap.curr_heap + 4) 0
                  size (omega arith) size_word (omega arith),
          omega arith,
          omega arith,
          omega arith,
          rw
              (
                load4-Same data_at (described heap m n ws) b same (data_at - 4) (omega arith),
                load4-with_words ws (tagged heap m n ws) (heap.curr_heap + 4) (data_at - 4) last
                    (td + 9) (omega arith) td_word (omega arith),
              )
              (omega arith),
        )

  pub described-Laid :
      (td : ℕ) (last : ℕ) (xs : List Block)
      → Laid heap m xs
      → nth ws 0 ≡ some size
      → nth ws last ≡ some (td + 9)
      → suc last ≡ count ws
      → td % 16 ≡ 0
      → td < 2 ^ 30
      → Laid
          (advanced heap size)
          (with_bytes (described heap m n ws) m)
          (xs ++ (record { kind = ablk; size = size } ∷ []))
  described-Laid td last xs = filled-Laid (described heap m n ws) td last xs (λ q h. refl)
