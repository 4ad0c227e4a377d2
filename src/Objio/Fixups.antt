-- ===== src/Objio/Fixups.antt =====
-- disasm/objio.cpp: commands, pointers, data and fixups of an object file, and the fixup of an address.
use oberon.Prelude.{ℕ, Bool, true, false, ◌||◌, ◌&&◌, Option, none, some, List, [], ◌∷◌}
use oberon.Prelude.Tests.{◌==◌, leb, if◌then◌else◌}
use oberon.Prelude.Int.{ℤ, pos, pos_part}
use oberon.Objio.{
  Reader, undefined, pure, stop, assert, ◌>>=◌, ◌>>◌, read_char, read_tag, read_num, read_string,
  read_bytes, eq_ℤ,
}
use oberon.Objio.Symbols.{Header, in_order, in_front}

unfoldable pub command_block : Header → Reader (List (List ℕ))
command_block h = do read_tag 0x85; in_front (pos_part h.n_com) read_string []

abbrev pub max_pointer_block : ℕ
max_pointer_block = 100

unfoldable pub pointer_block : Header → Reader (List ℤ)
pointer_block h = do
  read_tag 0x86
  if leb (pos_part h.n_ptr) max_pointer_block
      then in_order (pos_part h.n_ptr) read_num
      else stop undefined

-- `read_bytes` into an array of `limit` bytes.
abbrev pub into_array : ℕ → ℤ → Reader (List ℕ)
into_array limit n = if leb (pos_part n) limit then read_bytes n else stop undefined

unfoldable pub constant_block : Header → Reader (List ℕ)
constant_block h = do read_tag 0x87; into_array 15000 h.constx

unfoldable pub typedescdata_block : Header → Reader (List ℕ)
typedescdata_block h = do read_tag 0x88; into_array 5000 h.typedescx

unfoldable pub code_block : Header → Reader (List ℕ)
code_block h = do read_tag 0x89; into_array 96000 h.pc

-- fixup_desc_t, without its link.
pub record FixupDesc : Type 0 where
  pub mode : ℤ
  pub segment : ℤ
  pub offs : ℤ
  pub target : ℕ
  pub a0 : ℤ
  pub a1 : ℤ
  pub a2 : ℤ

-- A fixup of mode 0 or 1.
unfoldable pub target_fixup : ℤ → ℤ → ℤ → Reader FixupDesc
target_fixup mode segment offs = do
  fixup_type ← read_char
  assert (fixup_type == 1 || fixup_type == 2)
  (a0, a1, a2) ←
      if fixup_type == 1
      then (do kind ← read_num; mnolev ← read_num; adr ← read_num; pure (kind, mnolev, adr))
      else (do seg ← read_num; adr ← read_num; pure (seg, adr, pos 0))
  pure (record {
    mode = mode;
    segment = segment;
    offs = offs;
    target = fixup_type;
    a0 = a0;
    a1 = a1;
    a2 = a2;
  })

-- A round of the loop of fixup_block. Without assertions, a fixup of no known mode is undefined.
unfoldable pub read_fixup : Reader FixupDesc
unfolding target_fixup
read_fixup = do
  mode ← read_num
  segment ← read_num
  offs ← read_num
  if eq_ℤ mode (pos 0) || eq_ℤ mode (pos 1)
      then target_fixup mode segment offs
      else if eq_ℤ mode (pos 2)
      then (do
        adr ← read_num
        pure (record {
          mode = mode;
          segment = segment;
          offs = offs;
          target = 3;
          a0 = adr;
          a1 = pos 0;
          a2 = pos 0;
        }))
      else (do assert false; stop undefined)

unfoldable pub fixup_block : Header → Reader (List FixupDesc)
unfolding read_fixup
fixup_block h = do read_tag 0x8c; in_front (pos_part h.n_fixups) read_fixup []

-- helper_desc_t, with the offsets of its helper_loc_desc_t.
pub record HelperDesc : Type 0 where
  pub module_name : List ℕ
  pub func : List ℕ
  pub locs : List ℤ

abbrev pub mem_ℤ : ℤ → List ℤ → Bool
mem_ℤ pc [] = false
mem_ℤ pc (o ∷ os) = if eq_ℤ o pc then true else mem_ℤ pc os

unfoldable pub get_helper : List HelperDesc → ℤ → Option HelperDesc
get_helper [] pc = none
get_helper (h ∷ hs) pc = let rest = get_helper hs pc in if mem_ℤ pc h.locs then some h else rest

-- segCode is 0.
unfoldable pub get_fixup : List FixupDesc → ℤ → Option FixupDesc
get_fixup [] pc = none
get_fixup (f ∷ fs) pc =
    let rest = get_fixup fs pc in if eq_ℤ f.segment (pos 0) && eq_ℤ f.offs pc then some f else rest

pub data FixupKind : Type 0 where
  fk_none fk_helper fk_fixup : FixupKind

abbrev pub is_some : {A : Type 0} → Option A → Bool
is_some none = false
is_some (some a) = true

unfoldable pub code_fixup : List FixupDesc → List HelperDesc → ℤ → FixupKind
unfolding get_helper get_fixup
code_fixup fixups helpers pc =
    if is_some (get_fixup fixups pc)
    then fk_fixup
    else if is_some (get_helper helpers pc)
    then fk_helper
    else fk_none
