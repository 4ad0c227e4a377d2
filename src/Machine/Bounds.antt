-- ===== src/Machine/Bounds.antt =====
-- loader/skl.h: what `address_valid`, `read` and `write` do at each kind of address.
use oberon.Prelude.{ap, ◌∙◌, ℕ, ◌+◌, ◌^◌, ◌≤◌, ◌<◌, ◌≡◌, ◌↔◌, arith, true, false, Bool}
use oberon.Prelude.Word.{pattern32, int32, pattern32-int32}
use oberon.Machine.State.{Memory, HostBlock, Machine, returns}
use oberon.Machine.Trap.{
  out_of_bounds_read, out_of_bounds_write, trapped, IsIdle, hardware_trap_lem,
}
use oberon.Machine.Memory.{
  address_valid, load1, load2, load4, store4, with_bytes, read, write, ignored,
}

-- The memory lies in the block, and the block in the 32-bit address space and not at 0.
pub record InBlock (memory : Memory) (block : HostBlock) : Type 0 where
  pub not_nil : 0 < memory.beg
  pub below : block.base ≤ memory.beg
  pub above : memory.end ≤ block.base + block.size
  pub small : memory.end ≤ 2 ^ 32

abbrev pub HasMemory : Machine → Type 0
HasMemory m = InBlock m.memory m.block

-- [ea, ea + size) lies in the memory, and does not end at its last byte.
abbrev pub InMemory : Memory → ℕ → ℕ → Type 0
InMemory memory ea size = (memory.beg ≤ ea) × (ea + size < memory.end)

-- An access whose end does not wrap round is valid exactly when it begins in the memory and ends
-- before its last byte.
pub address_valid_iff :
    (memory : Memory) (ea size : ℕ)
    → ea + size < 2 ^ 32
    → (address_valid memory ea size ≡ true) ↔ InMemory memory ea size
address_valid_iff memory ea size h = ground arith

-- An address above the beginning of the memory is accepted when its end wraps round to below the
-- end of the memory.
pub address_valid_wrap :
    (memory : Memory) (ea size : ℕ)
    → memory.beg ≤ ea
    → ea < 2 ^ 32
    → 2 ^ 32 ≤ ea + size
    → ea + size < 2 ^ 32 + memory.end
    → size < 2 ^ 32
    → address_valid memory ea size ≡ true
address_valid_wrap memory ea size lo hi wraps e s = ground arith

module _ (m : Machine) (has : HasMemory m) (ea : ℕ) where
  open has use {not_nil, below, above, small}

  valid : (size : ℕ) → InMemory m.memory ea size → address_valid m.memory ea size ≡ true
  valid size inside = ground arith

  pub read_byte : InMemory m.memory ea 1 → read ea false 1 m ≡ returns (load1 m.bytes ea) m
  unfolding read
  read_byte inside = rw (valid 1 inside) (ground arith)

  pub read_half : InMemory m.memory ea 2 → read ea false 2 m ≡ returns (load2 m.bytes ea) m
  unfolding read
  read_half inside = rw (valid 2 inside) (ground arith)

  pub read_word : InMemory m.memory ea 4 → read ea false 4 m ≡ returns (load4 m.bytes ea) m
  unfolding read
  read_word inside = rw (valid 4 inside) (ground arith)

  load4-lt : (bytes : ℕ → ℕ) (p : ℕ) → load4 bytes p < 2 ^ 32
  load4-lt bytes p = omega arith

  read_word_extended :
      InMemory m.memory ea 4 → read ea true 4 m ≡ returns (pattern32 (int32 (load4 m.bytes ea))) m
  unfolding read
  read_word_extended inside = rw (valid 4 inside) (ground arith)

  -- The sign of a whole word has nothing to extend.
  pub read_word_signed : InMemory m.memory ea 4 → read ea true 4 m ≡ returns (load4 m.bytes ea) m
  read_word_signed inside =
      read_word_extended inside
      ∙ ap (λ v. returns v m) (pattern32-int32 (load4 m.bytes ea) (load4-lt m.bytes ea))

  pub write_word :
      (v : ℕ)
      → InMemory m.memory ea 4
      → write ea v 4 m ≡ returns tt (with_bytes (store4 m.bytes ea v) m)
  unfolding write
  write_word v inside = rw (valid 4 inside) (ground arith)

module _ (m : Machine) (ea size : ℕ) (outside : address_valid m.memory ea size ≡ false)
    (idle : IsIdle m) where
  -- An access outside the memory raises the trap and touches nothing else.
  pub read_outside :
      (sign_extend : Bool)
      → read ea sign_extend size m ≡ returns ignored (trapped out_of_bounds_read m)
  unfolding read
  read_outside sign_extend = ground (arith, outside, hardware_trap_lem out_of_bounds_read m idle)

  pub write_outside : (v : ℕ) → write ea v size m ≡ returns tt (trapped out_of_bounds_write m)
  unfolding write
  write_outside v = rw (outside, hardware_trap_lem out_of_bounds_write m idle)
