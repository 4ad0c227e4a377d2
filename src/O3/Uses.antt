-- ===== src/O3/Uses.antt =====
-- loader/o3.cpp: the uses of imported symbols, and the fixups.
use oberon.Prelude.{false, ℕ, zero, suc, ◌+◌, ◌*◌, Bool, ◌||◌, not, none, some, List, ◌∷◌, bit_and}
use oberon.Prelude.Tests.{◌==◌, leb, ltb, if◌then◌else◌}
use oberon.Prelude.Int.{ℤ, pos, negsuc, pos_part}
use oberon.Prelude.Text.{codes, same_text, length}
use oberon.Prelude.Word.{int32}
use oberon.Objio.{eq_ℤ}
use oberon.Machine.State.{undefined}
use oberon.Machine.Memory.{Haddr, read_4_ze}
use oberon.Heap.{host_address, align_block_size}
use oberon.Heap.Arrays.{record_elem_array_len}
use oberon.O3.Input.{read_ch, read_num}
use oberon.O3.Layout.{
  imports, exports, exp_name, exp_fprint, exp_pvfprint, exp_kind, sizeof_export_t, literal, stored,
  export_at, element, ahead, same_string,
}
use oberon.O3.Loader.{
  UsesInfo, Loader, L, did, in_machine, unending, pure, stop, fatal, ◌>>=◌, ◌>>◌, on_machine,
  on_file, assert, count, for_each, rounds_below,
}
use oberon.O3.Modules.{find_module}
use oberon.O3.Descriptors.{get_function_address}
use oberon.O3.Allocations.{c_string, new_string}
use oberon.O3.Segments.{
  fix_abs, fix_rel, fix_blk, fixup_segment, get_seg_adr, get_local_symbol_adr,
  get_imported_symbol_adr,
}
use oberon.O3.Blocks.{array_at, read_name}

-- The bits Upbstruc and Upvstruc.
abbrev pub struc_bits : ℕ
struc_bits = 192

-- A round of check_structure_fingerprint.
unfoldable pub check_export : Haddr → Haddr → ℤ → Bool → ℕ → L (Unit {0})
check_export exps name fp priv i = do
  exp ← on_machine (element exps sizeof_export_t (pos i))
  a ← on_machine (export_at exp exp_name)
  expname ← on_machine (host_address a)
  same ← on_machine (same_string (stored name) expname)
  if not same then pure tt else (do
    kind ← on_machine (export_at exp exp_kind)
    if bit_and kind struc_bits == 0 then pure tt else (do
      found ← on_machine (export_at exp (if priv then exp_pvfprint else exp_fprint))
      if eq_ℤ (int32 found) fp then pure tt else fatal))

unfoldable pub check_structure_fingerprint : Haddr → Haddr → ℤ → Bool → L (Unit {0})
unfolding check_export
check_structure_fingerprint none name fp priv = stop (in_machine undefined)
check_structure_fingerprint (some imported) name fp priv = do
  hp ← array_at imported exports
  n_elem ← on_machine (record_elem_array_len hp)
  for_each (rounds_below n_elem) 0 (check_export hp name fp priv)

-- Uconst, Utype, Uvar, Uxproc, Ucproc, Urectd, Udarrtd and Uarrtd.
abbrev pub plain_use : ℕ → Bool
plain_use tag =
    tag == 1 || tag == 2 || tag == 3 || tag == 4 || tag == 5 || tag == 8 || tag == 9 || tag == 10

abbrev pub with_use : ℕ → UsesInfo → Haddr → Loader → Loader
with_use i u name l = record l {
  uses_info = λ j. if j == i then u else l.uses_info j;
  uses_list = name ∷ l.uses_list;
}

-- The assertion lets the index 151 pass, which is past the end of the array.
unfoldable pub new_use : ℕ → ℕ → ℤ → ℕ → L ℕ
new_use i name pbfprint imported = do
  assert (leb i 151)
  host ← on_machine (host_address name)
  if ltb i 151
      then (λ l.
          did (i + 1)
            (with_use i (record { name = name; pbfprint = pbfprint; umod = imported }) host l))
      else stop (in_machine undefined)

-- A use of the module `mno`, and the number of uses so far.
unfoldable pub read_use : ℕ → ℕ → ℕ → ℕ → L ℕ
unfolding c_string new_string check_structure_fingerprint new_use
read_use m mno tag i = do
  n ← read_name
  name ← new_string n
  pbfprint ← on_file read_num
  imps ← array_at m imports
  imported ← on_machine (read_4_ze (ahead imps (mno * 4)))
  host ← on_machine (host_address imported)
  if plain_use tag
      then new_use i name pbfprint imported
      else if tag == 6 || tag == 7
      then (do
        hname ← on_machine (host_address name)
        check_structure_fingerprint host hname pbfprint (tag == 7)
        pure i)
      else fatal

-- The uses of a module, up to the tag 0. Each takes a byte of the file at least.
unfoldable pub uses_of : ℕ → ℕ → ℕ → ℕ → L ℕ
unfolding read_use
uses_of zero m mno i = stop unending
uses_of (suc fuel) m mno i = do
  tag ← on_file read_ch
  let rest = (do i' ← read_use m mno tag i; uses_of fuel m mno i')
  if tag == 0 then pure i else rest

abbrev pub file_fuel : Loader → ℕ
file_fuel l = suc (length l.file.rest)

abbrev pub each_import : ℕ → ℕ → ℕ → ℕ → L (Unit {0})
each_import zero m mno i = pure tt
each_import (suc n) m mno i =
    (λ l. uses_of (file_fuel l) m mno i l) >>= λ i'. each_import n m (mno + 1) i'

unfoldable pub read_uses : ℕ → ℤ → L (Unit {0})
unfolding uses_of
read_uses m n_imports = each_import (pos_part n_imports) m 0 0

-- The locations of a helper, up to -1.
unfoldable pub helper_locations : ℕ → ℕ → ℕ → L (Unit {0})
helper_locations zero m adr = stop unending
helper_locations (suc fuel) m adr = do
  offs ← on_file read_num
  let rest = (do
    λ l.
        (if l.ignore_helper_fixups
            then pure tt
            else on_machine (fixup_segment m (pos 0) fix_abs offs adr))
          l
    helper_locations fuel m adr)
  if eq_ℤ offs (negsuc 0) then pure tt else rest

-- The address of a procedure of Kernel.
unfoldable pub helper_address : List ℕ → List ℕ → L ℕ
unfolding get_function_address
helper_address name func = do
  that_mod ← find_module name
  elim that_mod [
    | none ↦ do assert false; stop (in_machine undefined)
    | some p ↦ do adr ← get_function_address p (literal func); if adr == 0 then fatal else pure adr
  ]

unfoldable pub read_helper : ℕ → L (Unit {0})
unfolding c_string helper_locations helper_address
read_helper m = do
  name ← read_name
  assert (same_text name (codes "Kernel"))
  func ← read_name
  adr ← λ l. (if l.ignore_helper_fixups then pure 0 else helper_address name func) l
  λ l. helper_locations (file_fuel l) m adr l

unfoldable pub read_helper_fixups : ℕ → ℤ → L (Unit {0})
unfolding read_helper
read_helper_fixups m n = for_each (pos_part n) 0 (λ i. read_helper m)

-- What an absolute or a relative fixup refers to.
unfoldable pub fixup_target : ℕ → L ℕ
unfolding get_local_symbol_adr get_imported_symbol_adr get_seg_adr
fixup_target m = do
  tag ← on_file read_ch
  if tag == 1
      then (do
        sym_seg ← on_file read_num
        sym_mno ← on_file read_num
        sym_adr ← on_file read_num
        if eq_ℤ sym_mno (pos 0)
            then on_machine (get_local_symbol_adr m sym_seg sym_adr)
            else get_imported_symbol_adr sym_adr)
      else (do
        assert (tag == 2)
        lab_seg ← on_file read_num
        lab_offs ← on_file read_num
        on_machine (get_seg_adr m lab_seg lab_offs))

-- A fixup of no mode is passed over where assertions are not compiled.
unfoldable pub read_fixup : ℕ → L (Unit {0})
unfolding fixup_target fixup_segment
read_fixup m = do
  mode ← on_file read_num
  segment ← on_file read_num
  offs ← on_file read_num
  if eq_ℤ mode (pos 0) || eq_ℤ mode (pos 1)
      then (do
        adr ← fixup_target m
        on_machine
            (fixup_segment m segment (if eq_ℤ mode (pos 0) then fix_abs else fix_rel) offs adr))
      else if eq_ℤ mode (pos 2)
      then (do
        sz ← on_file read_num
        n ← count sz
        aligned_size ← on_machine (align_block_size n)
        on_machine (fixup_segment m segment fix_blk offs aligned_size))
      else assert false

unfoldable pub read_fixups : ℕ → ℤ → L (Unit {0})
unfolding read_fixup
read_fixups m n = for_each (pos_part n) 0 (λ i. read_fixup m)
