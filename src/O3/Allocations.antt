-- ===== src/O3/Allocations.antt =====
-- loader/o3.cpp: the blocks that the loader allocates for a module.
use oberon.Prelude.{ℕ, ◌+◌, none, some, List}
use oberon.Prelude.Tests.{leb, ltb, if◌then◌else◌}
use oberon.Prelude.Int.{ℤ}
use oberon.Prelude.Text.{length}
use oberon.Prelude.Word.{pattern32}
use oberon.O3 as O3
use oberon.Objio.{strdup}
use oberon.Machine.State.{M, undefined}
use oberon.Machine.Memory.{Haddr}
use oberon.Heap.{Heap, host_address, heap_address}
use oberon.Heap.Arrays.{
  new_simple_elem_array, new_record_elem_array, new_pointer_elem_array, strcpy,
}
use oberon.Heap.Arrays as Arrays
use oberon.O3.Input.{name_len}
use oberon.O3.Header.{ObjfHeader}
use oberon.O3.Layout.{
  ModuleField, refcnt, sb, finalize, tdescs, exports, privates, commands, pointers, imports, jumps,
  bytes, tddata, code, refs, name, set_field, sizeof_module_t, sizeof_export_t, sizeof_cmd_t,
}
use oberon.O3.Loader.{
  TdName, td_module, td_tdescs, td_exports, td_privates, td_commands, td_pointers, td_imports,
  td_jumps, td_data, td_tddata, td_code, td_refs, td_index, L, in_machine, pure, stop, ◌>>=◌, ◌>>◌,
  on_machine, on_heap, defined, assert, count,
}
use oberon.O3.Modules.{add_module}

-- The string of a `string_t`; without a 0 among its bytes, to use it is undefined.
unfoldable pub c_string : List ℕ → L (List ℕ)
c_string s =
    let cs = strdup s in if ltb (length cs) name_len then pure cs else stop (in_machine undefined)

-- The host address of a descriptor.
abbrev pub descriptor : TdName → L Haddr
descriptor f l = on_machine (host_address (l.td_adr (td_index f))) l

-- The address of an array of `n` elements of `size` bytes.
abbrev pub new_array_of : (Heap → ℕ → ℕ → Haddr → M (Haddr × Heap)) → TdName → ℤ → ℕ → L ℕ
new_array_of new_array f n size = do
  elements ← count n
  td ← descriptor f
  p ← on_heap (λ heap. new_array heap elements size td)
  on_machine (heap_address p)

-- `str` has no byte 0.
unfoldable pub new_string : List ℕ → L ℕ
new_string str = do
  assert (leb (length str + 1) name_len)
  td ← descriptor td_refs
  n ← on_heap (λ heap. new_simple_elem_array heap (length str + 1) 1 td)
  elim n [
    | none ↦ stop (in_machine undefined)
    | some p ↦ do on_machine (strcpy p str); on_machine (heap_address (some p))
  ]

unfoldable pub new_exports : ℤ → ℕ → L ℕ
new_exports = new_array_of new_record_elem_array td_exports

unfoldable pub new_privates : ℤ → ℕ → L ℕ
new_privates = new_array_of new_record_elem_array td_privates

unfoldable pub new_typedescs : ℤ → ℕ → L ℕ
new_typedescs = new_array_of new_simple_elem_array td_tdescs

unfoldable pub new_commands : ℤ → ℕ → L ℕ
new_commands = new_array_of new_record_elem_array td_commands

unfoldable pub new_pointers : ℤ → ℕ → L ℕ
new_pointers = new_array_of new_simple_elem_array td_pointers

unfoldable pub new_imports : ℤ → ℕ → L ℕ
new_imports = new_array_of new_pointer_elem_array td_imports

unfoldable pub new_jumps : ℤ → ℕ → L ℕ
new_jumps = new_array_of new_simple_elem_array td_jumps

unfoldable pub new_data : ℤ → ℕ → L ℕ
new_data = new_array_of new_simple_elem_array td_data

unfoldable pub new_tddata : ℤ → ℕ → L ℕ
new_tddata = new_array_of new_simple_elem_array td_tddata

unfoldable pub new_code : ℤ → ℕ → L ℕ
new_code = new_array_of new_simple_elem_array td_code

unfoldable pub new_references : ℤ → ℕ → L ℕ
new_references = new_array_of new_simple_elem_array td_refs

-- A field that gets the address of a new array.
abbrev pub fill : ℕ → ModuleField → L ℕ → L (Unit {0})
fill m f new = do a ← new; on_machine (set_field m f a)

-- The module of the header, in the list of modules.
unfoldable pub new_module : ObjfHeader → L ℕ
unfolding add_module c_string new_string new_exports new_privates new_typedescs new_commands
    new_pointers new_imports new_jumps new_data new_tddata new_code new_references
new_module h = do
  td ← descriptor td_module
  m ← on_heap (λ heap. Arrays.new_module heap td sizeof_module_t)
  add_module m
  fill m name (λ l. new_string l.current_module_name l)
  on_machine (set_field m refcnt 0)
  on_machine (set_field m finalize 0)
  fill m exports (new_exports h.n_exports sizeof_export_t)
  fill m privates (new_privates h.nof_prv sizeof_export_t)
  fill m tdescs (new_typedescs h.nof_desc 4)
  fill m commands (new_commands h.nof_com sizeof_cmd_t)
  fill m pointers (new_pointers h.nof_ptr 4)
  fill m imports (new_imports h.nof_imports 4)
  fill m jumps (new_jumps h.case_size 1)
  size ← defined (O3.add h.data_size h.const_size)
  fill m bytes (new_data size 1)
  fill m tddata (new_tddata h.typedesc_size 1)
  fill m code (new_code h.code_size 1)
  fill m refs (new_references h.ref_size 1)
  on_machine (set_field m sb (pattern32 h.data_size))
  pure m
