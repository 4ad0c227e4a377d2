-- ===== src/Instruction/BitTest/Memory.antt =====
-- loader/skl_bit_test.cpp: the digits of a word in memory after a bit is set or cleared.
use Prim.Native.Nat.{bit_and}
use oberon.Prelude.{
  true, false, ℕ, ◌+◌, ◌-◌, ◌*◌, ◌/◌, ◌%◌, ◌^◌, ◌≤◌, ◌<◌, ◌≡◌, ◌≢◌, ◌⊎◌, ◌∙◌, inl, inr, refl, arith,
  subst,
}
use native.Mathlib.Nat.{zero-add}
use oberon.Prelude.Bits.{bit_and_mask}
use oberon.Prelude.Digits.{
  bit, bit-bit_or, bit-bit_and, bit-mul_above, bit-mul_below, bit-mod, bit-small, bit-complement,
}
use oberon.Prelude.Word.{add32}
use oberon.Machine.State.{Machine, returns}
use oberon.Machine.Register.{with_pc, with_integer, update_self}
use oberon.Machine.Memory.{load4}
use oberon.Machine.Bounds.{HasMemory, InMemory, read_word_signed, write_word}
use oberon.Machine.RoundTrip.{stored, load4-store4}
use oberon.Shift.{left_shift, left_shift_lem}
use oberon.Instruction.BitTest.{
  BitTest, BitAction, set_memory, clear_memory, interpret_bit_test, bit_test, cleared, with_bit,
}

low : (b : ℕ) → b < 32 → b % 32 ≡ b
low b h = omega arith

minus_plus : (i b : ℕ) → b ≤ i → i - b + b ≡ i
minus_plus i b h = omega arith

sides : (b i : ℕ) → i ≢ b → (i < b) ⊎ (b < i)
sides b i ne = ground arith

-- Digits of 1 << b.
single_same : (b : ℕ) → b < 32 → bit b (left_shift 1 b) ≡ 1
single_same b h =
    rw (left_shift_lem 1 b, low b h, bit-mod 32 b (1 * 2 ^ b) h)
      (subst (λ t. bit t (1 * 2 ^ b) ≡ 1) (zero-add b) (bit-mul_above b 0 1))

single_other : (b i : ℕ) → b < 32 → i < 32 → i ≢ b → bit i (left_shift 1 b) ≡ 0
single_other b i h hi ne =
    rw (left_shift_lem 1 b, low b h, bit-mod 32 i (1 * 2 ^ b) hi)
      (elim (sides b i ne) [
        | inl lt ↦ bit-mul_below b i 1 lt
        | inr gt ↦
            subst (λ t. bit t (1 * 2 ^ b) ≡ 0) (minus_plus i b (omega arith))
              (bit-mul_above b (i - b) 1 ∙ bit-small 1 (i - b) 1 (omega arith) (omega arith))
      ])

single-lt : (b : ℕ) → left_shift 1 b < 2 ^ 32
single-lt b = rw (left_shift_lem 1 b) (omega arith)

bit_test_lem : (v b : ℕ) → b < 32 → bit_test v b ≡ bit b v
unfolding bit_test
bit_test_lem v b h = bit_and_mask 1 (v / 2 ^ bit_and b 31) ∙ rw (bit_and_mask 5 b, low b h) refl

with_bit_same : (v b : ℕ) → b < 32 → bit b (with_bit v b) ≡ 1
unfolding with_bit
with_bit_same v b h = bit-bit_or b v (left_shift 1 b) ∙ rw (single_same b h) (omega arith)

with_bit_other : (v b i : ℕ) → b < 32 → i < 32 → i ≢ b → bit i (with_bit v b) ≡ bit i v
unfolding with_bit
with_bit_other v b i h hi ne =
    bit-bit_or i v (left_shift 1 b) ∙ rw (single_other b i h hi ne) (omega arith)

cleared_same : (v b : ℕ) → b < 32 → bit b (cleared v b) ≡ 0
unfolding cleared
cleared_same v b h =
    bit-bit_and b v (2 ^ 32 - 1 - left_shift 1 b)
    ∙ rw (bit-complement 32 b (left_shift 1 b) h (single-lt b), single_same b h) (omega arith)

cleared_other : (v b i : ℕ) → b < 32 → i < 32 → i ≢ b → bit i (cleared v b) ≡ bit i v
unfolding cleared
cleared_other v b i h hi ne =
    bit-bit_and i v (2 ^ 32 - 1 - left_shift 1 b)
    ∙ rw (bit-complement 32 i (left_shift 1 b) hi (single-lt b), single_other b i h hi ne)
        (omega arith)

-- Word `w` becomes `w'` by a change of digit `b` to `d` only.
abbrev pub ChangesBit : ℕ → ℕ → ℕ → ℕ → Type 0
ChangesBit b d w w' = (bit b w' ≡ d) × ((i : ℕ) → i < 32 → i ≢ b → bit i w' ≡ bit i w)

-- BTMSI and BTMCI.
abbrev pub immediate : BitAction → (rd b r1 : ℕ) → BitTest
immediate action rd b r1 = record { action = action; immediate = true; rd = rd; r0 = b; r1 = r1 }

-- What an instruction does that changes digit `b` of the word at R1 to `d`.
abbrev pub Changed : BitAction → (rd b r1 d : ℕ) → Machine → Type 0
Changed action rd b r1 d m =
    (m' : Machine) × (interpret_bit_test (immediate action rd b r1) m ≡ returns tt m')
    × (m'.cpu.r rd ≡ bit b (load4 m.bytes (m.cpu.r r1)))
    × ChangesBit b d (load4 m.bytes (m.cpu.r r1)) (load4 m'.bytes (m.cpu.r r1))
    × (m'.cpu.pc ≡ add32 m.cpu.pc 4)

module _ (rd b r1 : ℕ) (m : Machine) (has : HasMemory m) (inside : InMemory m.memory (m.cpu.r r1) 4)
    (running : m.cpu.exception_raised ≡ false) (hb : b < 32) where
  abbrev w : ℕ
  w = load4 m.bytes (m.cpu.r r1)

  after : ℕ → Machine
  after v = with_pc (add32 m.cpu.pc 4) (with_integer rd (bit_test w b) (stored (m.cpu.r r1) v m))

  set_runs : interpret_bit_test (immediate set_memory rd b r1) m ≡ returns tt (after (with_bit w b))
  unfolding interpret_bit_test after
  set_runs =
      simp
        (
          read_word_signed m has (m.cpu.r r1) inside,
          running,
          write_word m has (m.cpu.r r1) (with_bit w b) inside,
        )
        refl

  clear_runs :
      interpret_bit_test (immediate clear_memory rd b r1) m ≡ returns tt (after (cleared w b))
  unfolding interpret_bit_test after
  clear_runs =
      simp
        (
          read_word_signed m has (m.cpu.r r1) inside,
          running,
          write_word m has (m.cpu.r r1) (cleared w b) inside,
        )
        refl

  -- A changed word that is stored and loaded keeps its digits.
  stored_bit : (v i : ℕ) → i < 32 → bit i (load4 (after v).bytes (m.cpu.r r1)) ≡ bit i v
  unfolding after
  stored_bit v i hi = rw (load4-store4 m.bytes (m.cpu.r r1) v) (bit-mod 32 i v hi)

  old_bit : (v : ℕ) → (after v).cpu.r rd ≡ bit b w
  unfolding after
  old_bit v = update_self m.cpu.r rd (bit_test w b) ∙ bit_test_lem w b hb

  stepped : (v : ℕ) → (after v).cpu.pc ≡ add32 m.cpu.pc 4
  unfolding after
  stepped v = refl

  -- The instructions that set and clear an immediate bit, below 32, of a word inside the memory,
  -- where no trap is raised, put the old value of the bit into the destination, change that bit of
  -- the word and no other, and advance.
  pub bit-Changed : Changed set_memory rd b r1 1 m × Changed clear_memory rd b r1 0 m
  bit-Changed = (
    (
      after (with_bit w b),
      set_runs,
      old_bit (with_bit w b),
      (
        stored_bit (with_bit w b) b hb ∙ with_bit_same w b hb,
        λ i hi ne. stored_bit (with_bit w b) i hi ∙ with_bit_other w b i hb hi ne,
      ),
      stepped (with_bit w b),
    ),
    (
      after (cleared w b),
      clear_runs,
      old_bit (cleared w b),
      (
        stored_bit (cleared w b) b hb ∙ cleared_same w b hb,
        λ i hi ne. stored_bit (cleared w b) i hi ∙ cleared_other w b i hb hi ne,
      ),
      stepped (cleared w b),
    ),
  )
