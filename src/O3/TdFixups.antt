-- ===== src/O3/TdFixups.antt =====
-- loader/o3.cpp: the tags of the blocks that were allocated before their descriptors were found.
use oberon.Prelude.{ℕ, Bool, true, false, Option, none, some, List, [], ◌∷◌}
use oberon.Prelude.Tests.{◌==◌, if◌then◌else◌}
use oberon.Prelude.Int.{pos}
use oberon.Machine.State.{M, undefined}
use oberon.Machine.State as Machine
use oberon.Machine.Memory.{Haddr}
use oberon.Heap.{host_address}
use oberon.Heap.Arrays.{fixup_td, record_elem_array_len}
use oberon.O3.Layout.{
  ModuleField, tdescs, exports, privates, commands, pointers, imports, jumps, bytes, tddata, code,
  refs, name, exp_name, cmd_name, field_at, export_at, cmd_at, get_module_export,
  get_module_private, get_module_command,
}
use oberon.O3.Loader.{
  TdName, td_module, td_tdescs, td_exports, td_privates, td_commands, td_pointers, td_imports,
  td_jumps, td_data, td_tddata, td_code, td_refs, td_name, td_index, L, did, pure, ◌>>=◌, ◌>>◌,
  on_machine, for_each, rounds_below,
}
use oberon.O3.Modules.{each_module, walk_modules}

-- `heap::fixup_td` with the descriptor of a name.
abbrev pub fixup_with : Haddr → TdName → Bool → L (Unit {0})
fixup_with p f is_array l =
    (do td ← on_machine (host_address (l.td_adr (td_index f))); on_machine (fixup_td p td is_array))
      l

-- The array of a field.
abbrev pub fixup_field : ℕ → ModuleField → TdName → L (Unit {0})
fixup_field m f td = do
  a ← on_machine (field_at m f)
  p ← on_machine (host_address a)
  fixup_with p td true

-- The names of the records of an array, if there is one.
abbrev pub fixup_names : ℕ → ModuleField → (ℕ → M ℕ) → L (Unit {0})
fixup_names m f name_of = do
  a ← on_machine (field_at m f)
  if a == 0 then pure tt else (do
    host ← on_machine (host_address a)
    len ← on_machine (record_elem_array_len host)
    for_each (rounds_below len) 0 (λ i. (do
      s ← on_machine (name_of i)
      p ← on_machine (host_address s)
      fixup_with p td_name true)))

abbrev pub command_name_at : ℕ → ℕ → M ℕ
command_name_at m i = Machine.◌>>=◌ (get_module_command m (pos i)) (λ cmd. cmd_at cmd cmd_name)

abbrev pub export_name_at : ℕ → ℕ → M ℕ
export_name_at m i = Machine.◌>>=◌ (get_module_export m (pos i)) (λ exp. export_at exp exp_name)

abbrev pub private_name_at : ℕ → ℕ → M ℕ
private_name_at m i = Machine.◌>>=◌ (get_module_private m (pos i)) (λ pri. export_at pri exp_name)

-- A round of fixup_type_descriptors.
unfoldable pub fixup_module : ℕ → L (Option (Unit {0}))
fixup_module m = do
  fixup_with (some m) td_module false
  fixup_field m tdescs td_tdescs
  fixup_field m exports td_exports
  fixup_field m privates td_privates
  fixup_field m commands td_commands
  fixup_field m pointers td_pointers
  fixup_field m imports td_imports
  fixup_field m jumps td_jumps
  fixup_field m bytes td_data
  fixup_field m tddata td_tddata
  fixup_field m code td_code
  fixup_field m refs td_refs
  fixup_field m name td_name
  fixup_names m commands (command_name_at m)
  fixup_names m exports (export_name_at m)
  fixup_names m privates (private_name_at m)
  pure none

unfoldable pub fixup_type_descriptors : L (Unit {0})
unfolding walk_modules fixup_module
fixup_type_descriptors = each_module fixup_module >>= λ done. pure tt

abbrev pub fixup_uses : List Haddr → L (Unit {0})
fixup_uses [] l = did tt (record l { uses_list = [] })
fixup_uses (u ∷ us) l = (fixup_with u td_name true >> fixup_uses us) l

unfoldable pub fixup_uses_type_descriptors : L (Unit {0})
fixup_uses_type_descriptors l = fixup_uses l.uses_list l
