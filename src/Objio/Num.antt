-- ===== src/Objio/Num.antt =====
-- disasm/objio.cpp: numbers as the compiler writes them are read back.
use oberon.Prelude.{
  inl, inr, ◌∙◌, ℕ, zero, suc, ◌+◌, ◌-◌, ◌*◌, ◌/◌, ◌%◌, ◌^◌, ◌≤◌, ◌<◌, ◌≡◌, refl, arith, List, [],
  ◌∷◌, ◌++◌, Bool, true, false, some,
}
use oberon.Prelude.Tests.{ltb, leb, Bool-cases, if◌then◌else◌}
use oberon.Prelude.Int.{ℤ, pos, negsuc, pos_part, neg_part, ◌+ℤ◌}
use oberon.Prelude.Word.{uint8}
use oberon.Objio.{ObjFile, got, read_num, num_bytes, last_byte, last_group, shift_left, with_rest}

-- DIV and MOD by 128, rounded down.
abbrev pub div128 : ℤ → ℤ
div128 (pos n) = pos (n / 128)
div128 (negsuc n) = negsuc (n / 128)

abbrev pub mod128 : ℤ → ℕ
mod128 (pos n) = n % 128
mod128 (negsuc n) = 127 - n % 128

abbrev pub is_last : ℤ → Bool
is_last (pos n) = ltb n 64
is_last (negsuc n) = ltb n 64

-- The writer of numbers: groups of seven bits, the lowest first, all but the last marked, until the
-- rest lies from -64 to 63. `more` is the number of groups that may follow.
unfoldable pub write_num : (more : ℕ) → ℤ → List ℕ
write_num zero x = mod128 x ∷ []
write_num (suc more) x =
    if is_last x then mod128 x ∷ [] else (mod128 x + 128) ∷ write_num more (div128 x)

-- An `int`.
abbrev pub IsInt : ℤ → Type 0
IsInt z = (pos_part z < 2 ^ 31) × (neg_part z ≤ 2 ^ 31)

-- v + z * 2^n, where v is below 2^n.
abbrev placed : ℕ → ℕ → ℤ → ℤ
placed v n (pos q) = pos (v + q * 2 ^ n)
placed v n (negsuc q) = negsuc (q * 2 ^ n + 2 ^ n - 1 - v)

-- What holds of the place of a group.
record IsPlace (n : ℕ) : Type 0 where
  last :
      (v : ℕ) (z : ℤ) (f : ObjFile)
      → v < 2 ^ n
      → IsInt (placed v n z)
      → is_last z ≡ true
      → last_byte (pos v) n (mod128 z) f ≡ got (placed v n z) f
  shift : (c : ℕ) → c < 128 → n < 28 → shift_left (pos c) n ≡ some (pos (c * 2 ^ n))
  carry :
      (v : ℕ) (z : ℤ)
      → v < 2 ^ n
      → n < 28
      → placed (v + mod128 z * 2 ^ n) (n + 7) (div128 z) ≡ placed v n z
  bound : (v c : ℕ) → v < 2 ^ n → c < 128 → v + c * 2 ^ n < 2 ^ (n + 7)

IsPlace-0 : IsPlace 0
unfolding last_byte last_group ◌+ℤ◌
IsPlace-0 = record {
  last = λ v z f small int e. ground arith;
  shift = λ c small h. ground arith;
  carry = λ v z small h. ground arith;
  bound = λ v c small h. omega arith;
}

IsPlace-7 : IsPlace 7
unfolding last_byte last_group ◌+ℤ◌
IsPlace-7 = record {
  last = λ v z f small int e. ground arith;
  shift = λ c small h. ground arith;
  carry = λ v z small h. ground arith;
  bound = λ v c small h. omega arith;
}

IsPlace-14 : IsPlace 14
unfolding last_byte last_group ◌+ℤ◌
IsPlace-14 = record {
  last = λ v z f small int e. ground arith;
  shift = λ c small h. ground arith;
  carry = λ v z small h. ground arith;
  bound = λ v c small h. omega arith;
}

IsPlace-21 : IsPlace 21
unfolding last_byte last_group ◌+ℤ◌
IsPlace-21 = record {
  last = λ v z f small int e. ground arith;
  shift = λ c small h. ground arith;
  carry = λ v z small h. ground arith;
  bound = λ v c small h. omega arith;
}

IsPlace-28 : IsPlace 28
unfolding last_byte last_group ◌+ℤ◌
IsPlace-28 = record {
  last = λ v z f small int e. ground arith;
  shift = λ c small h. ground arith;
  carry = λ v z small h. ground arith;
  bound = λ v c small h. omega arith;
}

-- The groups of `z` at place `n`, of which at most `more` may follow the first, are read as z * 2^n.
IsRead : ℕ → ℕ → Type 0
IsRead n more =
    (v : ℕ) (z : ℤ) (f : ObjFile) (rest : List ℕ)
    → v < 2 ^ n
    → IsInt (placed v n z)
    → num_bytes (write_num more z ++ rest) (pos v) n f ≡ got (placed v n z) (with_rest rest f)

add_pos : (a b : ℕ) → pos a +ℤ pos b ≡ pos (a + b)
unfolding ◌+ℤ◌
add_pos a b = ground arith

placed_0 : (z : ℤ) → placed 0 0 z ≡ z
placed_0 z = ground arith

byte_small : (z : ℤ) → mod128 z < 128
byte_small z = ground arith

module _ (n : ℕ) (place : IsPlace n) where
  read_last :
      (v : ℕ) (z : ℤ) (f : ObjFile) (rest : List ℕ)
      → v < 2 ^ n
      → IsInt (placed v n z)
      → is_last z ≡ true
      → num_bytes (mod128 z ∷ rest) (pos v) n f ≡ got (placed v n z) (with_rest rest f)
  unfolding num_bytes
  read_last v z f rest small int e = rw (byte, low) (place.last v z (with_rest rest f) small int e)
    where
      byte : uint8 (mod128 z) ≡ mod128 z
      byte = omega (arith, byte_small z)

      low : leb 0x80 (mod128 z) ≡ false
      low = ground (arith, byte_small z)

  IsRead-more : (more : ℕ) → n < 28 → IsRead (n + 7) more → IsRead n (suc more)
  unfolding IsRead write_num num_bytes
  IsRead-more more below later v z f rest small int = elim (Bool-cases (is_last z)) [
    | inl e ↦ rw e (read_last v z f rest small int e)
    | inr e ↦
        rw (e, byte, high, low, place.shift (mod128 z) (byte_small z) below, sum)
          (later (v + mod128 z * 2 ^ n) (div128 z) f rest
              (place.bound v (mod128 z) small (byte_small z)) (rw (place.carry v z small below) int)
            ∙ rw (place.carry v z small below) refl)
  ]
    where
      byte : uint8 (mod128 z + 128) ≡ mod128 z + 128
      byte = omega (arith, byte_small z)

      high : leb 0x80 (mod128 z + 128) ≡ true
      high = ground arith

      low : mod128 z + 128 - 128 ≡ mod128 z
      low = omega arith

      sum : pos v +ℤ pos (mod128 z * 2 ^ n) ≡ pos (v + mod128 z * 2 ^ n)
      sum = add_pos v (mod128 z * 2 ^ n)

-- The last group that fits an `int` has the seven bits of one byte at most.
IsRead-28 : IsRead 28 0
unfolding IsRead write_num
IsRead-28 v z f rest small int = read_last 28 IsPlace-28 v z f rest small int (ground arith)

IsRead-21 : IsRead 21 1
IsRead-21 = IsRead-more 21 IsPlace-21 0 (omega arith) IsRead-28

IsRead-14 : IsRead 14 2
IsRead-14 = IsRead-more 14 IsPlace-14 1 (omega arith) IsRead-21

IsRead-7 : IsRead 7 3
IsRead-7 = IsRead-more 7 IsPlace-7 2 (omega arith) IsRead-14

IsRead-0 : IsRead 0 4
IsRead-0 = IsRead-more 0 IsPlace-0 3 (omega arith) IsRead-7

-- Every `int` that is written in groups of seven bits, the lowest first, until the rest lies from
-- -64 to 63, is read back from at most five bytes, and what follows it in the file is left.
pub read_num-write_num :
    (z : ℤ) (f : ObjFile) (rest : List ℕ)
    → IsInt z
    → read_num (with_rest (write_num 4 z ++ rest) f) ≡ got z (with_rest rest f)
unfolding read_num IsRead
read_num-write_num z f rest int =
    let file = with_rest (write_num 4 z ++ rest) f in
    IsRead-0 0 z file rest (omega arith) (rw (placed_0 z) int) ∙ rw (placed_0 z) refl
