-- ===== src/O3/Segments.antt =====
-- loader/o3.cpp: the addresses in the segments of a module, and the fixups that write them.
use oberon.Prelude.{ℕ, ◌+◌, ◌*◌, not, Option, none, some}
use oberon.Prelude.Tests.{◌==◌, leb, if◌then◌else◌}
use oberon.Prelude.Int.{ℤ, pos, negsuc}
use oberon.Prelude.Word.{pattern32, int32, add32, sub32, checked}
use oberon.O3 as O3
use oberon.Machine.State.{M, undefined, fatal, pure, halt, defined, assert, ◌>>=◌, ◌>>◌}
use oberon.Machine.Memory.{Haddr, read_4_ze, write_4}
use oberon.Heap.{host_address, heap_address}
use oberon.O3.Layout.{
  ModuleField, sb, jumps, bytes, tddata, tdescs, code, export_offset, exp_adr, cmd_offset, cmd_adr,
  stored, field_at, get_module_export, get_module_command,
}
use oberon.O3.Descriptors.{get_function_address}
use oberon.O3.Loader.{Loader, L, Stop, in_machine, stops}
use oberon.O3.Loader as Loader

-- objinfo.h: the segments of a module.
pub data Segment : Type 0 where
  seg_code seg_const seg_case seg_data seg_export seg_command seg_type_desc seg_t_desc : Segment

abbrev pub segment_of : ℤ → Option Segment
segment_of (negsuc n) = none
segment_of (pos n) =
    if n == 0
    then some seg_code
    else if n == 1
    then some seg_const
    else if n == 2
    then some seg_case
    else if n == 3
    then some seg_data
    else if n == 4
    then some seg_export
    else if n == 5
    then some seg_command
    else if n == 6
    then some seg_type_desc
    else if n == 7
    then some seg_t_desc
    else none

-- `offs * 4` of `int`.
abbrev pub four_times : ℤ → Option ℤ
four_times (pos n) = checked (pos (n * 4))
four_times (negsuc n) = checked (negsuc (n * 4 + 3))

-- The address of a field and an offset from it, which wraps.
abbrev pub in_array : ℕ → ModuleField → ℤ → M Haddr
in_array m f offset = do a ← field_at m f; host_address (add32 a (pattern32 offset))

-- Data lies below the static base, and constants from it on.
abbrev pub in_data : ℕ → ℤ → M Haddr
in_data m offs = do
  base ← field_at m sb
  offset ← defined (O3.add (int32 base) offs)
  in_array m bytes offset

abbrev pub segment_host : ℕ → Segment → ℤ → M Haddr
segment_host m seg_code offs = in_array m code offs
segment_host m seg_const offs = in_data m offs
segment_host m seg_case offs = in_array m jumps offs
segment_host m seg_data offs = in_data m offs
segment_host m seg_export offs = do
  exp ← get_module_export m offs
  pure (some (exp + export_offset exp_adr))
segment_host m seg_command offs = do
  cmd ← get_module_command m offs
  pure (some (cmd + cmd_offset cmd_adr))
segment_host m seg_type_desc offs = in_array m tddata offs
segment_host m seg_t_desc offs = do offset ← defined (four_times offs); in_array m tdescs offset

unfoldable pub get_seg_adr : ℕ → ℤ → ℤ → M ℕ
get_seg_adr m segment offs = elim (segment_of segment) [
  | none ↦ halt fatal
  | some s ↦ do r ← segment_host m s offs; heap_address r
]

-- objinfo.h: the kinds of fixups.
pub data FixupMode : Type 0 where
  fix_abs fix_rel fix_blk : FixupMode

-- What is added to the word at `adr`.
abbrev pub to_add : FixupMode → ℕ → ℕ → ℕ
to_add fix_abs adr target = target
to_add fix_rel adr target = sub32 target (add32 adr (2 * 4))
to_add fix_blk adr target = target

-- The word at the address is changed. A block size replaces it.
unfoldable pub fixup_at : FixupMode → ℕ → ℕ → M (Unit {0})
fixup_at fix_blk adr target = do host ← host_address adr; write_4 host target
fixup_at kind adr target = do
  host ← host_address adr
  old ← read_4_ze host
  write_4 host (add32 old (to_add kind adr target))

unfoldable pub fixup_segment : ℕ → ℤ → FixupMode → ℤ → ℕ → M (Unit {0})
unfolding get_seg_adr fixup_at
fixup_segment m segment kind offs target = do
  assert (not (target == 0))
  adr ← get_seg_adr m segment offs
  fixup_at kind adr target

unfoldable pub get_local_symbol_adr : ℕ → ℤ → ℤ → M ℕ
unfolding get_seg_adr
get_local_symbol_adr m sym_seg sym_adr = get_seg_adr m sym_seg sym_adr

-- The length of `uses_info`.
abbrev pub len_uses_info : ℕ
len_uses_info = 151

-- An index below the array is undefined.
unfoldable pub get_imported_symbol_adr : ℤ → L ℕ
unfolding get_function_address
get_imported_symbol_adr (negsuc n) l = stops (in_machine undefined)
get_imported_symbol_adr (pos n) l =
    (if leb len_uses_info n
        then Loader.fatal
        else (let use_index = l.uses_info n in
            Loader.◌>>=◌ (Loader.on_machine (host_address use_index.umod)) λ m.
              Loader.◌>>=◌ (Loader.on_machine (host_address use_index.name)) λ symbol. elim m [
                | none ↦ Loader.stop (in_machine undefined)
                | some p ↦
                    Loader.◌>>=◌ (get_function_address p (stored symbol))
                      λ adr. if adr == 0 then Loader.fatal else Loader.pure adr
              ]))
      l
