-- ===== src/O3/Fixed.antt =====
-- loader/o3.cpp: what a fixup makes of the word that an instruction reads.
use oberon.Prelude.{ℕ, ◌+◌, ◌*◌, ◌%◌, ◌^◌, ◌≤◌, ◌<◌, ◌≡◌, refl, arith}
use oberon.Prelude.Word.{add32, sub32}
use oberon.Shift.{field}
use oberon.Machine.State.{Machine, returns, ◌>>◌}
use oberon.Machine.Register.{retadr}
use oberon.Machine.Memory.{load4, store4, with_bytes}
use oberon.Machine.RoundTrip.{load4-store4}
use oberon.Machine.Bounds.{HasMemory, InMemory, read_word}
use oberon.Heap.Tiles.{host_address_lem, read_4_ze_lem}
use oberon.Heap.Allocated.{write_4_lem}
use oberon.Instruction.Jump.{construct_jump, construct_jal, jump, jal}
use oberon.O3.Segments.{FixupMode, fix_abs, fix_rel, fix_blk, to_add, fixup_at}
use oberon.O3.Chain.{IsMapped}

-- The word after a fixup.
abbrev pub fixed : FixupMode → ℕ → ℕ → ℕ → ℕ
fixed fix_blk adr target old = target
fixed kind adr target old = add32 old (to_add kind adr target)

module _ (m : Machine) (is : IsMapped m) (adr : ℕ) (from : m.block.base ≤ adr)
    (inside : adr + 4 ≤ m.block.base + m.memory.n_bytes) where
  open is use {positive, whole, small}

  pub fixup_at-fixed :
      (kind : FixupMode) (target : ℕ)
      → fixup_at kind adr target m
        ≡ returns tt (with_bytes (store4 m.bytes adr (fixed kind adr target (load4 m.bytes adr))) m)
  unfolding fixup_at
  fixup_at-fixed fix_blk target =
      rw
        (
          host_address_lem m adr (omega arith) from (omega arith) (omega arith),
          write_4_lem m adr target from (omega arith),
        )
        refl
  fixup_at-fixed fix_abs target =
      rw
        (
          host_address_lem m adr (omega arith) from (omega arith) (omega arith),
          read_4_ze_lem m adr from (omega arith),
          write_4_lem m adr (add32 (load4 m.bytes adr) target) from (omega arith),
        )
        refl
  fixup_at-fixed fix_rel target =
      rw
        (
          host_address_lem m adr (omega arith) from (omega arith) (omega arith),
          read_4_ze_lem m adr from (omega arith),
          write_4_lem m adr (add32 (load4 m.bytes adr) (to_add fix_rel adr target)) from
              (omega arith),
        )
        refl

-- The operand of the jump at `pc` and the memory after its fixup.
module _ (m : Machine) (is : IsMapped m) (has : HasMemory m) (pc target : ℕ)
    (small : target < 2 ^ 32) (from : m.block.base ≤ pc + 4)
    (inside : pc + 8 ≤ m.block.base + m.memory.n_bytes)
    (in_memory : InMemory m.memory (pc + 4) 4) where
  abbrev old : ℕ
  old = load4 m.bytes (pc + 4)

  abbrev after : FixupMode → Machine
  after kind = with_bytes (store4 m.bytes (pc + 4) (fixed kind (pc + 4) target old)) m

  next_word : add32 pc 4 ≡ pc + 4
  next_word = omega (arith, is.small, is.whole)

  -- An absolute fixup with the address of a procedure of the operand of a JAL, inside the memory
  -- and 0 before, makes the instruction that is decoded from there go to the procedure and return
  -- behind the operand.
  pub call_fixed :
      (inst : ℕ)
      → old ≡ 0
      → field inst 25 21 ≡ retadr
      → (fixup_at fix_abs (pc + 4) target >> construct_jal pc inst) m
        ≡ returns (jal retadr target (pc + 8)) (after fix_abs)
  unfolding construct_jal
  call_fixed inst zeros register =
      rw
        (
          fixup_at-fixed m is (pc + 4) from (omega arith) fix_abs target,
          next_word,
          read_word (after fix_abs) has (pc + 4) in_memory,
          load4-store4 m.bytes (pc + 4) (fixed fix_abs (pc + 4) target old),
          register,
          zeros,
          destination,
          return_addr,
        )
        refl
    where
      destination : add32 0 target % 2 ^ 32 ≡ target
      destination = omega arith

      return_addr : add32 pc (2 * 4) ≡ pc + 8
      return_addr = omega (arith, is.small, is.whole)

  -- A relative fixup of the operand of a jump inside the memory makes the instruction that is
  -- decoded from there go four bytes before the sum of the target and the old operand.
  pub jump_fixed :
      (fixup_at fix_rel (pc + 4) target >> construct_jump pc) m
      ≡ returns
          (jump (fixed fix_rel (pc + 4) target old) (sub32 (add32 target old) 4))
          (after fix_rel)
  unfolding construct_jump
  jump_fixed =
      rw
        (
          fixup_at-fixed m is (pc + 4) from (omega arith) fix_rel target,
          next_word,
          read_word (after fix_rel) has (pc + 4) in_memory,
          load4-store4 m.bytes (pc + 4) (fixed fix_rel (pc + 4) target old),
          word,
          destination,
        )
        refl
    where
      word : fixed fix_rel (pc + 4) target old % 2 ^ 32 ≡ fixed fix_rel (pc + 4) target old
      word = omega arith

      destination :
          add32 (add32 pc (2 * 4)) (fixed fix_rel (pc + 4) target old) ≡ sub32 (add32 target old) 4
      destination = omega (arith, is.small, is.whole)
