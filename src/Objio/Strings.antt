-- ===== src/Objio/Strings.antt =====
-- disasm/objio.cpp: a string that was read is found again by its index.
use oberon.Prelude.{
  ℕ, ◌-◌, ◌<◌, ◌^◌, ◌≡◌, refl, ap, arith, List, [], ◌∷◌, ◌++◌, true, false, Option, none, some,
}
use oberon.Prelude.Tests.{◌==◌}
use oberon.Prelude.Int.{pos, negsuc, ltb_ℤ}
use oberon.Prelude.Text.{length}
use oberon.Prelude.Word.{uint8}
use oberon.O3.{neg}
use oberon.Objio.{
  ObjFile, Reader, assert, stop, undefined, got, read_char, read_chars, read_raw_string,
  read_string, find_string, with_rest, strdup, lookup, eq_ℤ, ◌>>=◌, ◌>>◌, pure,
}
use oberon.Objio.Num.{write_num, read_num-write_num}

-- Bytes of a string, none of them 0.
abbrev pub IsString : List ℕ → Type 0
IsString [] = Unit {0}
IsString (c ∷ cs) = (0 < c) × (c < 256) × IsString cs

-- A new string in the file: its index, its length and its bytes; and one that was written before.
abbrev pub write_new : ℕ → List ℕ → List ℕ → List ℕ
write_new i s rest = write_num 4 (pos i) ++ (write_num 4 (pos (length s)) ++ (s ++ rest))

abbrev pub write_old : ℕ → List ℕ → List ℕ
write_old i rest = write_num 4 (negsuc (i - 1)) ++ rest

strdup_lem : (s : List ℕ) → IsString s → strdup s ≡ s
strdup_lem [] h = refl
strdup_lem (c ∷ cs) (positive, small, h) = rw (nonzero, strdup_lem cs h) refl
  where
    nonzero : (c == 0) ≡ false
    nonzero = ground arith

read_chars_lem :
    (s rest : List ℕ) (f : ObjFile)
    → IsString s
    → read_chars (length s) (with_rest (s ++ rest) f) ≡ got s (with_rest rest f)
unfolding read_char
read_chars_lem [] rest f h = refl
read_chars_lem (c ∷ cs) rest f (positive, small, h) = rw (byte, read_chars_lem cs rest f h) refl
  where
    byte : uint8 c ≡ c
    byte = omega arith

-- The file with one more string.
abbrev pub with_string : ℕ → List ℕ → ObjFile → ObjFile
with_string i s f = record f { strings = record { i = pos i; str = s } ∷ f.strings }

abbrev pub read_twice : Reader (List ℕ × List ℕ)
read_twice = do first ← read_string; second ← read_string; pure (first, second)

neg_lem : (i : ℕ) → 0 < i → i < 2 ^ 31 → neg (negsuc (i - 1)) ≡ some (pos i)
unfolding neg
neg_lem i positive small = ground arith

same : (i : ℕ) → eq_ℤ (pos i) (pos i) ≡ true
same i = ground arith

nonnegative : (n : ℕ) → ltb_ℤ (pos n) (pos 0) ≡ false
nonnegative n = ground arith

module _ (f : ObjFile) (i : ℕ) (s : List ℕ) (small : i < 2 ^ 31) (is : IsString s) where
  pub read_new :
      (rest : List ℕ)
      → length s < 2 ^ 31
      → read_string (with_rest (write_new i s rest) f) ≡ got s (with_rest rest (with_string i s f))
  unfolding read_string read_raw_string
  read_new rest short =
      rw
        (
          read_num-write_num (pos i) f (write_num 4 (pos (length s)) ++ (s ++ rest))
              (small, omega arith),
          nonnegative i,
          read_num-write_num (pos (length s)) f (s ++ rest) (short, omega arith),
          nonnegative (length s),
          read_chars_lem s rest f is,
          strdup_lem s is,
        )
        refl

  read_old :
      (rest : List ℕ)
      → 0 < i
      → read_string (with_rest (write_old i rest) (with_string i s f))
        ≡ got s (with_rest rest (with_string i s f))
  unfolding read_string find_string
  read_old rest positive =
      rw
        (
          read_num-write_num (negsuc (i - 1)) (with_string i s f) rest (omega arith, omega arith),
          negative,
          opposite,
        )
        (ap
          (λ (o : Option (List ℕ)). elim o [
            | none ↦ (assert false >> stop undefined) (with_rest rest (with_string i s f))
            | some t ↦ got t (with_rest rest (with_string i s f))
          ])
          found)
    where
      negative : ltb_ℤ (negsuc (i - 1)) (pos 0) ≡ true
      negative = ground arith

      opposite : neg (negsuc (i - 1)) ≡ some (pos i)
      opposite = neg_lem i positive small

      found : lookup (record { i = pos i; str = s } ∷ f.strings) (pos i) ≡ some s
      found = rw (same i) refl

  -- In a file with a new string, by its index, its length and its bytes other than 0, and after it
  -- the opposite of that index, which is positive, both are read as that string, which is put in
  -- front of the table of strings.
  pub read_string-again :
      (rest : List ℕ)
      → length s < 2 ^ 31
      → 0 < i
      → read_twice (with_rest (write_new i s (write_old i rest)) f)
        ≡ got (s, s) (with_rest rest (with_string i s f))
  read_string-again rest short positive =
      rw (read_new (write_old i rest) short, read_old rest positive) refl
