-- ===== src/O3/Input.antt =====
-- loader/o3.cpp: the functions with which the loader of modules reads an object file. They have the
-- format of disasm/objio.cpp, and the same model of a file.
use oberon.Prelude.{ℕ, zero, suc, ◌+◌, ◌-◌, false, none, some, List, [], ◌∷◌}
use oberon.Prelude.Tests.{◌==◌, ltb, leb, if◌then◌else◌}
use oberon.Prelude.Int.{ℤ, pos, pos_part, ◌+ℤ◌, ltb_ℤ, neg_part, sub_ℕ}
use oberon.Prelude.Word.{int32, pattern32, uint8}
use oberon.Objio.{
  Reader, got, ends, pure, stop, ◌>>=◌, ◌>>◌, defined, assert, undefined, fatal, not_implemented,
  with_rest, take_bytes, little_endian, shift_left, last_group, lookup, add_string,
}

-- The bytes of a `string_t`.
abbrev pub name_len : ℕ
name_len = 32

-- At the end of the file the program ends.
unfoldable pub read_ch : Reader ℕ
read_ch f = elim (f.rest) [ [] ↦ ends not_implemented | c ∷ cs ↦ got (uint8 c) (with_rest cs f) ]

unfoldable pub read_bytes : ℕ → Reader (List ℕ)
read_bytes n f = elim (take_bytes n f.rest) [
  | none ↦ ends fatal
  | some (bs, rest) ↦ got bs (with_rest rest f)
]

unfoldable pub read_lint : Reader ℤ
read_lint f = elim (take_bytes 4 f.rest) [
  | none ↦ ends not_implemented
  | some (bs, rest) ↦ got (int32 (little_endian bs)) (with_rest rest f)
]

unfoldable pub read_tag : ℕ → Reader (Unit {0})
unfolding read_ch
read_tag tag = do ch ← read_ch; if ch == tag then pure tt else stop fatal

-- The end of read_num, which cuts the sum to an `int`.
unfoldable pub last_byte : ℤ → ℕ → ℕ → Reader ℤ
unfolding last_group
last_byte y n ch = do high ← defined (last_group ch n); pure (int32 (pattern32 (high +ℤ y)))

-- The loop of read_num.
unfoldable pub num_bytes : List ℕ → ℤ → ℕ → Reader ℤ
unfolding last_byte
num_bytes [] y n f = ends not_implemented
num_bytes (c ∷ cs) y n f =
    let rest = num_bytes cs in
    if leb 0x80 (uint8 c)
    then (do s ← defined (shift_left (pos (uint8 c - 128)) n); rest (y +ℤ s) (n + 7)) f
    else last_byte y n (uint8 c) (with_rest cs f)

unfoldable pub read_num : Reader ℤ
unfolding num_bytes
read_num f = num_bytes f.rest (pos 0) 0 f

-- What `strncpy` leaves of a string in a `string_t`, before the 0 at its end.
abbrev pub copied : ℕ → List ℕ → List ℕ
copied zero s = []
copied (suc n) [] = []
copied (suc n) (c ∷ cs) = if c == 0 then [] else c ∷ copied n cs

-- Unary minus of `long`.
abbrev pub opposite : ℤ → ℤ
opposite z = sub_ℕ (neg_part z) (pos_part z)

unfoldable pub find_str : ℤ → Reader (List ℕ)
find_str index f = elim (lookup f.strings (opposite index)) [
  | none ↦ (assert false >> stop undefined) f
  | some s ↦ got (copied (name_len - 1) s) f
]

unfoldable pub new_object_module_str : ℤ → List ℕ → Reader (Unit {0})
new_object_module_str index str = add_string index (copied (name_len - 1) str)

abbrev pub read_chs : ℕ → Reader (List ℕ)
read_chs zero = pure []
read_chs (suc n) = do c ← read_ch; cs ← read_chs n; pure (c ∷ cs)

-- More bytes than a `string_t` has are undefined where the assertion is not compiled.
unfoldable pub read_raw_str : Reader (List ℕ)
unfolding read_num read_ch
read_raw_str = do
  len ← read_num
  assert (ltb_ℤ len (pos name_len))
  if ltb name_len (pos_part len) then stop undefined else read_chs (pos_part len)

unfoldable pub read_str : Reader (List ℕ)
unfolding read_num find_str read_raw_str new_object_module_str
read_str = do
  index ← read_num
  if ltb_ℤ index (pos 0)
      then find_str index
      else (do x ← read_raw_str; new_object_module_str index x; pure x)
