-- ===== src/Machine/Memory.antt =====
-- loader/skl.h and loader/heap.h: access to the Oberon memory.
use oberon.Prelude.{ℕ, ◌+◌, ◌-◌, ◌*◌, ◌/◌, ◌^◌, Bool, ◌&&◌, Option, none, some}
use oberon.Prelude.Tests.{ltb, leb, ◌==◌, if◌then◌else◌}
use oberon.Prelude.Word.{uint8, uint16, add32, int8, int16, int32, pattern32}
use oberon.Machine.State.{
  Memory, HostBlock, Machine, M, returns, halts, undefined, pure, ◌>>◌, assert,
}
use oberon.Machine.Trap.{hardware_trap, out_of_bounds_read, out_of_bounds_write}

-- A host address, or NULL.
abbrev pub Haddr : Type 0
Haddr = Option ℕ

-- Only NIL becomes NULL; `some a` is the host address `allocated_heap_upper_32 + a`.
abbrev pub heap_to_host : ℕ → Haddr
heap_to_host heap = if heap == 0 then none else some heap

-- The test of the emulator on an address. The sum is a `uint32`.
abbrev pub address_valid : Memory → ℕ → ℕ → Bool
address_valid memory ea size =
    let beg_ok = leb memory.beg ea in
    let end_ok = ltb (add32 ea size) memory.end in beg_ok && end_ok

-- The `n` bytes at a host address lie in the block; else the access is undefined.
abbrev pub within : HostBlock → ℕ → ℕ → Bool
within block p n = leb block.base p && leb (p + n) (block.base + block.size)

abbrev pub at_host : {A : Type 0} → Haddr → ℕ → (ℕ → M A) → M A
at_host none n access m = halts undefined
at_host (some p) n access m = if within m.block p n then access p m else halts undefined

-- Little-endian values in memory.
abbrev pub load1 : (ℕ → ℕ) → ℕ → ℕ
load1 bytes p = uint8 (bytes p)

abbrev pub load2 : (ℕ → ℕ) → ℕ → ℕ
load2 bytes p = uint8 (bytes p) + uint8 (bytes (p + 1)) * 2 ^ 8

abbrev pub load4 : (ℕ → ℕ) → ℕ → ℕ
load4 bytes p =
    uint8 (bytes p)
    + uint8 (bytes (p + 1)) * 2 ^ 8
    + uint8 (bytes (p + 2)) * 2 ^ 16
    + uint8 (bytes (p + 3)) * 2 ^ 24

abbrev pub store1 : (ℕ → ℕ) → ℕ → ℕ → ℕ → ℕ
store1 bytes p v q = if q == p then uint8 v else bytes q

abbrev pub store2 : (ℕ → ℕ) → ℕ → ℕ → ℕ → ℕ
store2 bytes p v = store1 (store1 bytes p v) (p + 1) (v / 2 ^ 8)

abbrev pub store4 : (ℕ → ℕ) → ℕ → ℕ → ℕ → ℕ
store4 bytes p v = store2 (store2 bytes p v) (p + 2) (v / 2 ^ 16)

abbrev pub with_bytes : (ℕ → ℕ) → Machine → Machine
with_bytes b m = record m { bytes = b }

unfoldable pub read_1_se : Haddr → M ℕ
read_1_se p = at_host p 1 (λ a m. returns (pattern32 (int8 (load1 m.bytes a))) m)

unfoldable pub read_1_ze : Haddr → M ℕ
read_1_ze p = at_host p 1 (λ a m. returns (load1 m.bytes a) m)

unfoldable pub read_2_se : Haddr → M ℕ
read_2_se p = at_host p 2 (λ a m. returns (pattern32 (int16 (load2 m.bytes a))) m)

unfoldable pub read_2_ze : Haddr → M ℕ
read_2_ze p = at_host p 2 (λ a m. returns (load2 m.bytes a) m)

unfoldable pub read_4_se : Haddr → M ℕ
read_4_se p = at_host p 4 (λ a m. returns (pattern32 (int32 (load4 m.bytes a))) m)

unfoldable pub read_4_ze : Haddr → M ℕ
read_4_ze p = at_host p 4 (λ a m. returns (load4 m.bytes a) m)

unfoldable pub write_1 : Haddr → ℕ → M (Unit {0})
write_1 p val = at_host p 1 (λ a m. returns tt (with_bytes (store1 m.bytes a val) m))

unfoldable pub write_2 : Haddr → ℕ → M (Unit {0})
write_2 p val = at_host p 2 (λ a m. returns tt (with_bytes (store2 m.bytes a val) m))

unfoldable pub write_4 : Haddr → ℕ → M (Unit {0})
write_4 p val = at_host p 4 (λ a m. returns tt (with_bytes (store4 m.bytes a val) m))

-- The access by `size`, once the address is known to be valid.
unfoldable pub read_sized : ℕ → Bool → ℕ → M ℕ
unfolding read_1_se read_1_ze read_2_se read_2_ze read_4_se read_4_ze
read_sized addr sign_extend size =
    let p = heap_to_host addr in
    if size == 1
    then if sign_extend then read_1_se p else read_1_ze p
    else if size == 2
    then if sign_extend then read_2_se p else read_2_ze p
    else assert (size == 4) >> (if sign_extend then read_4_se p else read_4_ze p)

-- The value that a trapped read returns, which its callers ignore.
abbrev pub ignored : ℕ
ignored = 2 ^ 32 - 1

unfoldable pub read : ℕ → Bool → ℕ → M ℕ
unfolding read_sized
read addr sign_extend size m =
    if address_valid m.memory addr size
    then read_sized addr sign_extend size m
    else (hardware_trap out_of_bounds_read >> pure ignored) m

unfoldable pub write_sized : ℕ → ℕ → ℕ → M (Unit {0})
unfolding write_1 write_2 write_4
write_sized addr val size =
    let p = heap_to_host addr in
    if size == 1
    then write_1 p (uint8 val)
    else if size == 2
    then write_2 p (uint16 val)
    else assert (size == 4) >> write_4 p val

unfoldable pub write : ℕ → ℕ → ℕ → M (Unit {0})
unfolding write_sized
write addr val size m =
    if address_valid m.memory addr size
    then write_sized addr val size m
    else hardware_trap out_of_bounds_write m
