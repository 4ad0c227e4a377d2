-- ===== src/Objio/Locations.antt =====
-- disasm/objio.cpp: the locations of a helper, which end at -1.
use oberon.Prelude.{
  ℕ, zero, suc, ◌^◌, ◌<◌, ◌≡◌, ◌≢◌, refl, arith, List, [], ◌∷◌, ◌++◌, false, inl, inr,
}
use oberon.Prelude.Tests.{Bool-cases}
use oberon.Prelude.Int.{ℤ, pos, negsuc, ◌+ℤ◌}
use oberon.Prelude.Text.{length}
use oberon.Prelude.Word.{int32, pattern32}
use oberon.Objio.{ObjFile, got, ends, endless, read_num, last_byte, last_group, with_rest, eq_ℤ}
use oberon.Objio.Num.{IsInt, write_num, is_last, div128, read_num-write_num}
use oberon.Objio.Strings.{IsString, write_new, with_string, read_new}
use oberon.Objio.Uses.{helper_locs, read_helper_desc, tag_fuel}

-- Locations in the file, with the -1 behind them.
abbrev pub write_locs : List ℤ → List ℕ → List ℕ
write_locs [] rest = write_num 4 (negsuc 0) ++ rest
write_locs (z ∷ zs) rest = write_num 4 z ++ write_locs zs rest

-- Values of `int` other than -1.
abbrev pub AreLocations : List ℤ → Type 0
AreLocations [] = Unit {0}
AreLocations (z ∷ zs) = IsInt z × (z ≢ negsuc 0) × AreLocations zs

-- The elements in the opposite order, in front of others.
abbrev pub reverse_onto : List ℤ → List ℤ → List ℤ
reverse_onto [] acc = acc
reverse_onto (z ∷ zs) acc = reverse_onto zs (z ∷ acc)

other : (z : ℤ) → z ≢ negsuc 0 → eq_ℤ z (negsuc 0) ≡ false
other (pos n) h = ground arith
other (negsuc zero) h = absurd (h refl)
other (negsuc (suc n)) h = ground arith

-- A number has a byte.
write_num-longer :
    (more : ℕ) (z : ℤ) (rest : List ℕ) → length rest < length (write_num more z ++ rest)
unfolding write_num
write_num-longer zero z rest = omega arith
write_num-longer (suc more) z rest = elim (Bool-cases (is_last z)) [
  | inl last ↦ rw last (omega arith)
  | inr further ↦ rw further (omega (arith, write_num-longer more (div128 z) rest))
]

write_locs-longer : (zs : List ℤ) (rest : List ℕ) → length zs < length (write_locs zs rest)
write_locs-longer [] rest = omega (arith, write_num-longer 4 (negsuc 0) rest)
write_locs-longer (z ∷ zs) rest =
    omega (arith, write_locs-longer zs rest, write_num-longer 4 z (write_locs zs rest))

module _ (f : ObjFile) (rest : List ℕ) where
  helper_locs-write_locs :
      (zs acc : List ℤ) (n : ℕ)
      → AreLocations zs
      → length zs < n
      → helper_locs n acc (with_rest (write_locs zs rest) f)
        ≡ got (reverse_onto zs acc) (with_rest rest f)
  unfolding helper_locs
  helper_locs-write_locs zs acc zero are enough = absurd (omega arith)
  helper_locs-write_locs [] acc (suc n) are enough =
      rw (read_num-write_num (negsuc 0) f rest (omega arith, omega arith)) refl
  helper_locs-write_locs (z ∷ zs) acc (suc n) (int, differs, are) enough =
      rw (read_num-write_num z f (write_locs zs rest) int, other z differs)
        (helper_locs-write_locs zs (z ∷ acc) n are (omega arith))

-- A helper whose two names are new strings of the file and whose locations, none of them -1, are
-- followed by -1 is read to the end: the names come back, the locations in the opposite order,
-- what follows the -1 is left, and the table of strings has both names in front.
pub read_helper_desc-written :
    (f : ObjFile) (i j : ℕ) (name func : List ℕ) (locs : List ℤ) (rest : List ℕ)
    → i < 2 ^ 31
    → j < 2 ^ 31
    → IsString name
    → IsString func
    → length name < 2 ^ 31
    → length func < 2 ^ 31
    → AreLocations locs
    → read_helper_desc (with_rest (write_new i name (write_new j func (write_locs locs rest))) f)
      ≡ got
          (record { module_name = name; func = func; locs = reverse_onto locs [] })
          (with_rest rest (with_string j func (with_string i name f)))
unfolding read_helper_desc
read_helper_desc-written f i j name func locs rest i_small j_small name_is func_is short_name
      short_func are =
    rw
      (
        read_new f i name i_small name_is (write_new j func (write_locs locs rest)) short_name,
        read_new (with_string i name f) j func j_small func_is (write_locs locs rest) short_func,
        helper_locs-write_locs (with_string j func (with_string i name f)) rest locs []
            (tag_fuel (with_rest (write_locs locs rest) f)) are
            (omega (arith, write_locs-longer locs rest)),
      )
      refl

-- At the end of the file read_num gives 0.
read_num-end : (f : ObjFile) → f.rest ≡ [] → read_num f ≡ got (pos 0) (with_rest [] f)
unfolding read_num last_byte last_group ◌+ℤ◌
read_num-end f e = rw (e, same) refl
  where
    same : int32 (pattern32 (pos 0 +ℤ pos 0)) ≡ pos 0
    same = ground arith

-- Where the file ends before the -1, the loop over the locations of a helper goes on: it has not
-- ended after any number of rounds.
pub helper_locs-endless :
    (n : ℕ) (locs : List ℤ) (f : ObjFile) → f.rest ≡ [] → helper_locs n locs f ≡ ends endless
unfolding helper_locs
helper_locs-endless zero locs f e = refl
helper_locs-endless (suc n) locs f e =
    rw (read_num-end f e) (helper_locs-endless n (pos 0 ∷ locs) (with_rest [] f) refl)
