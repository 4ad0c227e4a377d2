-- ===== src/Objio.antt =====
-- disasm/objio.cpp: the reader of object files. The file is the list of the bytes that are still to be
-- read.
pub mod Num
pub mod Strings
pub mod Symbols
pub mod TypeDescs
pub mod Fixups
pub mod Uses
pub mod Locations
use oberon.Prelude.{
  ℕ, zero, suc, ◌+◌, ◌-◌, ◌*◌, ◌/◌, ◌%◌, ◌^◌, Bool, true, false, ◌&&◌, ◌||◌, not, Option, none,
  some, List, [], ◌∷◌,
}
use oberon.Prelude.Tests.{◌==◌, ltb, leb, if◌then◌else◌}
use oberon.Prelude.Int.{ℤ, pos, negsuc, pos_part, neg_part, ◌+ℤ◌, ltb_ℤ}
use oberon.Prelude.Word.{int32, pattern32, uint8}
use oberon.O3.{neg}
use oberon.Machine.State.{BuildType, alpha, beta, release}
use oberon.Instruction.IntReg.{arithmetic_shift}

-- How the program ends: `exit`, a failed assertion, an operation that C++ leaves undefined,
-- `dialog::fatal` and `dialog::not_implemented`; or a loop goes on for more rounds than its fuel.
pub data End : Type 0 where
  exits assertion undefined fatal not_implemented endless : End

-- obj_str_desc_t, without its link.
pub record ObjStrDesc : Type 0 where
  pub i : ℤ
  pub str : List ℕ

-- The open file and the table of strings. `build` tells whether assertions are compiled.
pub record ObjFile : Type 0 where
  pub build : BuildType
  pub rest : List ℕ
  pub strings : List ObjStrDesc

pub data Reading (A : Type 0) : Type 0 where
  got : A → ObjFile → Reading A
  ends : End → Reading A

abbrev pub Reader : Type 0 → Type 0
Reader A = ObjFile → Reading A

abbrev pub pure : {A : Type 0} → A → Reader A
pure a f = got a f

abbrev pub stop : {A : Type 0} → End → Reader A
stop e f = ends e

abbrev pub bind : {A B : Type 0} → Reading A → (A → Reader B) → Reading B
bind (got a f) k = k a f
bind (ends e) k = ends e

infixl 5 ◌>>=◌ ◌>>◌
abbrev pub ◌>>=◌ : {A B : Type 0} → Reader A → (A → Reader B) → Reader B
◌>>=◌ m k f = bind (m f) k

abbrev pub ◌>>◌ : {B : Type 0} → Reader (Unit {0}) → Reader B → Reader B
m >> k = m >>= λ _. k

abbrev pub defined : {A : Type 0} → Option A → Reader A
defined none f = ends undefined
defined (some a) f = got a f

abbrev pub assert : Bool → Reader (Unit {0})
assert true f = got tt f
assert false f = elim f.build [
  | release ↦ got tt f
  | alpha ↦ ends assertion
  | beta ↦ ends assertion
]

abbrev pub with_rest : List ℕ → ObjFile → ObjFile
with_rest bytes f = record f { rest = bytes }

-- A byte; at the end of the file, 0.
unfoldable pub read_char : Reader ℕ
read_char f = elim (f.rest) [ [] ↦ got 0 f | c ∷ cs ↦ got (uint8 c) (with_rest cs f) ]

-- `n` bytes, or the end of the program.
abbrev pub take_bytes : ℕ → List ℕ → Option (List ℕ × List ℕ)
take_bytes zero cs = some ([], cs)
take_bytes (suc n) [] = none
take_bytes (suc n) (c ∷ cs) = elim (take_bytes n cs) [
  | none ↦ none
  | some (bs, rest) ↦ some (uint8 c ∷ bs, rest)
]

-- A count below 0 is converted to a huge `size_t`, which no file has.
unfoldable pub read_bytes : ℤ → Reader (List ℕ)
read_bytes (negsuc n) f = ends exits
read_bytes (pos n) f = elim (take_bytes n f.rest) [
  | none ↦ ends exits
  | some (bs, rest) ↦ got bs (with_rest rest f)
]

abbrev pub little_endian : List ℕ → ℕ
little_endian [] = 0
little_endian (b ∷ bs) = b + little_endian bs * 2 ^ 8

unfoldable pub read_lint : Reader ℤ
unfolding read_bytes
read_lint = do bytes ← read_bytes (pos 4); pure (int32 (little_endian bytes))

unfoldable pub read_tag : ℕ → Reader (Unit {0})
read_tag expected f = elim (f.rest) [
  | [] ↦ ends exits
  | c ∷ cs ↦ if uint8 c == expected then got tt (with_rest cs f) else ends exits
]

-- `a << n` of `int`, which wraps; a count of 32 or more is undefined.
abbrev pub shift_left : ℤ → ℕ → Option ℤ
shift_left a n = if ltb n 32 then some (int32 (pattern32 a * 2 ^ n % 2 ^ 32)) else none

-- The value of the last byte, whose seven bits have a sign, at position `n`.
unfoldable pub last_group : ℕ → ℕ → Option ℤ
last_group ch n = elim (shift_left (pos ch) 25) [
  | none ↦ none
  | some high ↦ if ltb n 25 then some (arithmetic_shift high (25 - n)) else shift_left high (n - 25)
]

-- The end of read_num. `y` and the sum are `long`.
unfoldable pub last_byte : ℤ → ℕ → ℕ → Reader ℤ
unfolding last_group
last_byte y n ch = do
  high ← defined (last_group ch n)
  let x = high +ℤ y
  let res = int32 (pattern32 x)
  assert (not (ltb_ℤ res x || ltb_ℤ x res))
  pure res

-- The loop of read_num over the bytes of the file; at the end of the file read_char gives 0.
unfoldable pub num_bytes : List ℕ → ℤ → ℕ → Reader ℤ
unfolding last_byte
num_bytes [] y n f = last_byte y n 0 (with_rest [] f)
num_bytes (c ∷ cs) y n f =
    let rest = num_bytes cs in
    if leb 0x80 (uint8 c)
    then (do s ← defined (shift_left (pos (uint8 c - 128)) n); rest (y +ℤ s) (n + 7)) f
    else last_byte y n (uint8 c) (with_rest cs f)

unfoldable pub read_num : Reader ℤ
unfolding num_bytes
read_num f = num_bytes f.rest (pos 0) 0 f

-- `n` calls of read_char.
abbrev pub read_chars : ℕ → Reader (List ℕ)
read_chars zero = pure []
read_chars (suc n) = do c ← read_char; cs ← read_chars n; pure (c ∷ cs)

-- A length below 0 is undefined.
unfoldable pub read_raw_string : Reader (List ℕ)
unfolding read_num read_char
read_raw_string = do
  len ← read_num
  if ltb_ℤ len (pos 0) then stop undefined else read_chars (pos_part len)

-- `strdup` keeps a string up to its first 0.
abbrev pub strdup : List ℕ → List ℕ
strdup [] = []
strdup (c ∷ cs) = if c == 0 then [] else c ∷ strdup cs

abbrev pub eq_ℤ : ℤ → ℤ → Bool
eq_ℤ a b = not (ltb_ℤ a b || ltb_ℤ b a)

abbrev pub lookup : List ObjStrDesc → ℤ → Option (List ℕ)
lookup [] i = none
lookup (o ∷ os) i = if eq_ℤ o.i i then some o.str else lookup os i

-- The string of the table with the opposite index.
unfoldable pub find_string : ℤ → Reader (List ℕ)
find_string index = do
  i ← defined (neg index)
  λ f. elim (lookup f.strings i) [ none ↦ (assert false >> stop undefined) f | some s ↦ got s f ]

abbrev pub add_string : ℤ → List ℕ → Reader (Unit {0})
add_string index s f = got tt (record f { strings = record { i = index; str = s } ∷ f.strings })

unfoldable pub read_string : Reader (List ℕ)
unfolding read_num read_raw_string find_string
read_string = do
  index ← read_num
  if ltb_ℤ index (pos 0)
      then find_string index
      else (do raw ← read_raw_string; let s = strdup raw; add_string index s; pure s)
