-- ===== src/Execute.antt =====
-- loader/skl.cpp, loader/skl_instruction.cpp and loader/skl_instruction.h: the cache of decoded
-- instructions and the loop that executes them.
pub mod Fetch
pub mod Stuck
pub mod Decoded
pub mod Unmoved
pub mod Reset
pub mod Coherent
pub mod Processor
pub mod Links
pub mod Uncached
use oberon.Prelude.{
  ℕ, zero, suc, ◌+◌, ◌-◌, ◌/◌, Bool, true, false, ◌&&◌, not, Option, none, some, bit_and,
}
use oberon.Prelude.Tests.{◌==◌, ltb, leb, if◌then◌else◌}
use oberon.Prelude.Word.{add32, sub32}
use oberon.Ieee.{Ieee}
use oberon.Machine.State.{
  M, Machine, Halt, undefined, Outcome, returns, halts, pure, halt, assert, ◌>>=◌, ◌>>◌,
}
use oberon.Machine.Register.{
  cr1, with_pc, read_integer_register, write_integer_register, program_counter,
  increment_instruction_count,
}
use oberon.Machine.Trap.{read_control_register}
use oberon.Machine.Memory.{Haddr, heap_to_host}
use oberon.Decode.{Instruction, interpret, fetch_and_decode}

-- instruction_t: a decoded instruction. `next` points to the object of the cache at that offset.
pub record Cached : Type 0 where
  pub pc : ℕ
  pub body : Instruction
  pub next : Option ℕ

abbrev pub Cache : Type 0
Cache = ℕ → Option Cached

-- loader/heap.h: heap_pointer_ok and oberon_address_ok.
abbrev pub heap_pointer_ok : Machine → Haddr → Bool
heap_pointer_ok m none = true
heap_pointer_ok m (some p) = leb m.block.base p && ltb p (m.block.base + m.memory.n_bytes)

abbrev pub oberon_address_ok : Machine → ℕ → ℕ → Bool
oberon_address_ok m addr n_bytes =
    if addr == 0
    then true
    else let end = add32 addr n_bytes in
      heap_pointer_ok m (heap_to_host addr) && heap_pointer_ok m (heap_to_host end)

-- allocate_instruction_cache: one element for each word of the heap.
abbrev pub cache_elements : Machine → ℕ
cache_elements m = m.memory.n_bytes / 4

-- loader/heap.h: heap_offset. The offset counts bytes.
unfoldable pub heap_offset : ℕ → M ℕ
heap_offset addr m =
    if addr == 0
    then returns 0 m
    else (do
      assert (bit_and addr 3 == 0)
      assert (oberon_address_ok m addr 4)
      assert (leb m.block.base addr && ltb (addr - m.block.base) (m.memory.n_bytes / 4))
      pure (sub32 addr m.block.base))
        m

-- An index of the cache; past its end the access is undefined.
unfoldable pub cache_index : ℕ → M ℕ
unfolding heap_offset
cache_index addr = do
  offset ← heap_offset addr
  λ m.
      (do
        assert (bit_and offset 3 == 0 && ltb offset (cache_elements m))
        if ltb offset (cache_elements m) then pure offset else halt undefined)
        m

-- The object in the cache, or NULL.
abbrev pub pointer_to : Cache → ℕ → Option ℕ
pointer_to cache k = elim (cache k) [ none ↦ none | some c ↦ some k ]

unfoldable pub lookup_instruction : Cache → ℕ → M (Option ℕ)
unfolding cache_index
lookup_instruction cache addr = do k ← cache_index addr; pure (pointer_to cache k)

abbrev pub insert : Cache → ℕ → Cached → Cache
insert cache k c j = if k == j then some c else cache j

abbrev pub is_null : Option ℕ → Bool
is_null none = true
is_null (some k) = false

-- cache_instruction: the index of the new object. The cell is empty.
unfoldable pub cache_instruction : Cache → ℕ → M ℕ
unfolding cache_index
cache_instruction cache addr = do
  k ← cache_index addr
  assert (is_null (pointer_to cache k))
  pure k

-- The state of `execute` at the head of its loop.
pub record Emulator : Type 0 where
  pub machine : Machine
  pub cache : Cache
  pub next : Option ℕ

pub data Run : Type 0 where
  running : Emulator → Run
  stopped : Halt → Run

abbrev pub then_run : {A : Type 0} → Outcome A → (A → Machine → Run) → Run
then_run (returns a m) k = k a m
then_run (halts h) k = stopped h

-- `next == NULL || next->pc != program_counter`.
abbrev pub is_stale : Cache → Option ℕ → ℕ → Bool
is_stale cache none pc = true
is_stale cache (some k) pc = elim (cache k) [ none ↦ true | some c ↦ not (c.pc == pc) ]

abbrev pub reset_r0 : M (Unit {0})
reset_r0 = do v ← read_integer_register 0; if v == 0 then pure tt else write_integer_register 0 0

module _ (fp : Ieee) (service : ℕ → ℕ → M (Unit {0})) where
  -- The part of the loop after `interpret`: the link to the next instruction.
  unfoldable pub link_next : Cache → ℕ → Cached → Machine → Run
  link_next cache k c m =
      if is_stale cache c.next m.cpu.pc
      then then_run (lookup_instruction cache m.cpu.pc m) (λ next m'.
        running
          (record { machine = m'; cache = insert cache k (record c { next = next }); next = next }))
      else running (record { machine = m; cache = cache; next = c.next })

  -- `cinst != NULL`: interpret the instruction at index `k`.
  unfoldable pub interpret_cached : Cache → ℕ → Machine → Run
  unfolding link_next
  interpret_cached cache k m = elim (cache k) [
    | none ↦ stopped undefined
    | some c ↦
        then_run ((interpret fp service c.body >> increment_instruction_count) m)
          (λ _ m'. link_next cache k c m')
  ]

  -- fetch_and_cache_instruction, and the rest of the round.
  unfoldable pub fetch_round : Cache → Machine → Run
  unfolding interpret_cached
  fetch_round cache m = then_run (fetch_and_decode fp m) (λ decoded m'. elim decoded [
    | none ↦
        then_run
          ((do handler ← read_control_register cr1; pc ← program_counter; assert (pc == handler))
            m')
          (λ _ m''. running (record { machine = m''; cache = cache; next = none }))
    | some i ↦ then_run (cache_instruction cache m.cpu.pc m') (λ k m''.
        interpret_cached (insert cache k (record { pc = m.cpu.pc; body = i; next = none })) k m'')
  ])

  -- One round of the loop of `execute`.
  unfoldable pub round : Emulator → Run
  unfolding fetch_round
  round e =
      then_run (reset_r0 e.machine) (λ _ m. elim e.next [
        | none ↦ fetch_round e.cache m
        | some k ↦ interpret_cached e.cache k m
      ])

  -- The first `n` rounds; the loop itself does not end.
  unfoldable pub rounds : ℕ → Emulator → Run
  rounds zero e = running e
  rounds (suc n) e = elim (round e) [ running e' ↦ rounds n e' | stopped h ↦ stopped h ]

  -- `execute` from an address.
  unfoldable pub execute : ℕ → Cache → ℕ → Machine → Run
  execute n cache addr m =
      let m' = with_pc addr m in
      then_run (lookup_instruction cache addr m')
        (λ next m''. rounds n (record { machine = m''; cache = cache; next = next }))
