-- ===== src/O3/Descriptors.antt =====
-- loader/o3.cpp: the type descriptors of the module Kernel, which the blocks that the loader allocates
-- get once they are found.
use oberon.Prelude.{
  ℕ, ◌+◌, ◌*◌, ◌/◌, Bool, ◌&&◌, not, true, false, Option, none, some, List, [], ◌∷◌,
}
use oberon.Prelude.Tests.{◌==◌, ltb, if◌then◌else◌}
use oberon.Prelude.Int.{pos}
use oberon.Prelude.Text.{codes}
use oberon.Prelude.Word.{int32}
use oberon.O3 as O3
use oberon.Objio.{eq_ℤ}
use oberon.Machine.State.{M, undefined}
use oberon.Machine.State as Machine
use oberon.Machine.Memory.{read_4_ze}
use oberon.Heap.{host_address, allocation_block_size}
use oberon.Heap.Arrays.{record_elem_array_len}
use oberon.O3.Layout.{
  exports, Chars, literal, exp_adr, field_at, export_at, get_module_export, get_export_name,
  same_string, ahead,
}
use oberon.O3.Loader.{
  TdName, td_module, td_vmsvc, td_tdescs, td_exports, td_privates, td_commands, td_pointers,
  td_imports, td_jumps, td_data, td_tddata, td_code, td_refs, td_name, td_names, td_index, Loader,
  L, did, pure, fatal, ◌>>=◌, ◌>>◌, on_machine, defined, find_each, rounds_below,
}

-- The geometries, each with what its check compares. `flags` of a record is not compared.
pub data Geometry : Type 0 where
  typedesc_geometry_record :
      (extension_level record_size_in_bytes n_pointers : ℕ) (record_name : List ℕ) → Geometry
  typedesc_geometry_simple_array : (flags element_form n_dimensions : ℕ) → Geometry
  typedesc_geometry_record_array : (flags n_dimensions : ℕ) (record_name : List ℕ) → Geometry
  typedesc_geometry_record_pointer_array : (flags n_dimensions : ℕ) → Geometry

-- The last index of the table of pointers, as the loader computes it.
abbrev pub last_index : ℕ → ℕ
last_index n_pointers = 9 + n_pointers / 4

-- The word behind the table at `td + 36` and the distance that it cancels.
abbrev pub sentinel_valid : ℕ → ℕ → M Bool
sentinel_valid td n_pointers =
    Machine.◌>>=◌ (read_4_ze (some (td + 36 + (last_index n_pointers + 1) * 4))) (λ w.
      Machine.◌>>=◌ (Machine.defined (O3.add (int32 w) (pos ((9 + n_pointers) * 4))))
        (λ s. Machine.pure (eq_ℤ s (pos 0))))

-- The fields of td_record are at 8 (extension_level), 12 (record_size), 20 (n_pointers) and 24
-- (record_name), and its table of pointers at 36.
unfoldable pub validate_record_td : ℕ → ℕ → ℕ → ℕ → List ℕ → L Bool
validate_record_td adr ext size n_ptr record_name = do
  td ← on_machine (host_address adr)
  elim td [
    | none ↦ pure false
    | some p ↦ do
      extension_level ← on_machine (read_4_ze (some (p + 8)))
      record_size ← on_machine (read_4_ze (some (p + 12)))
      n_pointers ← on_machine (read_4_ze (some (p + 20)))
      if not (extension_level == ext && record_size == size && n_pointers == n_ptr)
          then pure false
          else (do
            a ← on_machine (read_4_ze (some (p + 24)))
            rname ← on_machine (host_address a)
            same ← on_machine (same_string (literal record_name) rname)
            if not same
                then pure false
                else if ltb 0 n_ptr
                then on_machine (sentinel_valid p n_ptr)
                else pure true)
  ]

-- The address is read even where it is NULL, for the diagnostic.
unfoldable pub validate_simple_array_td : ℕ → ℕ → ℕ → ℕ → L Bool
validate_simple_array_td adr flags element_form n_dimensions = do
  td ← on_machine (host_address adr)
  f ← on_machine (read_4_ze td)
  e ← on_machine (read_4_ze (ahead td 4))
  n ← on_machine (read_4_ze (ahead td 8))
  pure (f == flags && e == element_form && n == n_dimensions)

unfoldable pub validate_record_array_td : ℕ → ℕ → ℕ → List ℕ → L Bool
validate_record_array_td adr flags n_dimensions record_name = do
  td ← on_machine (host_address adr)
  r ← on_machine (read_4_ze (ahead td 4))
  rtd ← on_machine (host_address r)
  a ← on_machine (read_4_ze (ahead rtd 24))
  rname ← on_machine (host_address a)
  f ← on_machine (read_4_ze td)
  n ← on_machine (read_4_ze (ahead td 8))
  if f == flags && n == n_dimensions
      then on_machine (same_string (literal record_name) rname)
      else pure false

unfoldable pub validate_record_pointer_array_td : ℕ → ℕ → ℕ → L Bool
validate_record_pointer_array_td adr flags n_dimensions = do
  td ← on_machine (host_address adr)
  f ← on_machine (read_4_ze td)
  n ← on_machine (read_4_ze (ahead td 8))
  pure (f == flags && n == n_dimensions)

-- td_info: the name in the table of exports, and the geometry.
abbrev pub export_name : TdName → List ℕ
export_name td_module = codes ".ModuleDesc"
export_name td_vmsvc = codes ".VMServiceDesc"
export_name td_tdescs = codes ".td_1"
export_name td_exports = codes ".td_7"
export_name td_privates = codes ".td_7"
export_name td_commands = codes ".td_6"
export_name td_pointers = codes ".td_0"
export_name td_imports = codes ".td_2"
export_name td_jumps = codes ".td_4"
export_name td_data = codes ".td_4"
export_name td_tddata = codes ".td_4"
export_name td_code = codes ".td_4"
export_name td_refs = codes ".td_5"
export_name td_name = codes ".td_3"

abbrev pub geometry : TdName → Geometry
geometry td_module = typedesc_geometry_record 0 0x40 0x0d (codes "ModuleDesc")
geometry td_vmsvc = typedesc_geometry_record 0 4 0 (codes "VMServiceDesc")
geometry td_tdescs = typedesc_geometry_simple_array 0x40000001 6 1
geometry td_exports = typedesc_geometry_record_array 0x40000003 1 (codes "Export")
geometry td_privates = typedesc_geometry_record_array 0x40000003 1 (codes "Export")
geometry td_commands = typedesc_geometry_record_array 0x40000003 1 (codes "Cmd")
geometry td_pointers = typedesc_geometry_simple_array 0x40000001 6 1
geometry td_imports = typedesc_geometry_record_pointer_array 0x40000002 1
geometry td_jumps = typedesc_geometry_simple_array 0x40000001 2 1
geometry td_data = typedesc_geometry_simple_array 0x40000001 2 1
geometry td_tddata = typedesc_geometry_simple_array 0x40000001 2 1
geometry td_code = typedesc_geometry_simple_array 0x40000001 2 1
geometry td_refs = typedesc_geometry_simple_array 0x40000001 3 1
geometry td_name = typedesc_geometry_simple_array 0x40000001 3 1

-- The check of td_info for a geometry.
unfoldable pub validity_check : Geometry → ℕ → L Bool
unfolding validate_record_td validate_simple_array_td validate_record_array_td
    validate_record_pointer_array_td
validity_check (typedesc_geometry_record e s n record_name) adr =
    validate_record_td adr e s n record_name
validity_check (typedesc_geometry_simple_array f e n) adr = validate_simple_array_td adr f e n
validity_check (typedesc_geometry_record_array f n record_name) adr =
    validate_record_array_td adr f n record_name
validity_check (typedesc_geometry_record_pointer_array f n) adr =
    validate_record_pointer_array_td adr f n

-- A round of the search for one descriptor: the address of the export of its name.
unfoldable pub find_descriptor : ℕ → TdName → ℕ → L (Option ℕ)
unfolding validity_check
find_descriptor m f i = do
  exp ← on_machine (get_module_export m (pos i))
  ename ← on_machine (get_export_name exp)
  same ← on_machine (same_string (literal (export_name f)) ename)
  if not same then pure none else (do
    adr ← on_machine (export_at exp exp_adr)
    valid ← validity_check (geometry f) adr
    if valid then pure (some adr) else fatal)

abbrev pub with_td : ℕ → ℕ → Loader → Loader
with_td i adr l = record l { td_adr = λ j. if j == i then adr else l.td_adr j }

unfoldable pub set_descriptor : ℕ → ℕ → TdName → L (Unit {0})
unfolding find_descriptor
set_descriptor m len f = do
  found ← find_each (rounds_below len) 0 (find_descriptor m f)
  elim found [ none ↦ pure tt | some adr ↦ λ l. did tt (with_td (td_index f) adr l) ]

-- The sanity check of one descriptor.
unfoldable pub check_descriptor : TdName → L (Unit {0})
check_descriptor f l =
    let adr = l.td_adr (td_index f) in
    (if adr == 0 then fatal else (do
      rest ← defined (O3.modulo (int32 adr) (pos allocation_block_size))
      if eq_ℤ rest (pos 0) then pure tt else fatal))
      l

abbrev pub for_all : List TdName → (TdName → L (Unit {0})) → L (Unit {0})
for_all [] body = pure tt
for_all (f ∷ fs) body = body f >> for_all fs body

abbrev pub n_exports : ℕ → L ℕ
n_exports m = do
  a ← on_machine (field_at m exports)
  host ← on_machine (host_address a)
  on_machine (record_elem_array_len host)

unfoldable pub get_kernel_td_info : ℕ → L (Unit {0})
unfolding set_descriptor check_descriptor
get_kernel_td_info m = do
  len ← n_exports m
  for_all td_names (set_descriptor m len)
  again ← n_exports m
  for_all td_names check_descriptor

-- A round of get_function_address.
unfoldable pub exported : ℕ → Chars → ℕ → L (Option ℕ)
exported m function i = do
  exp ← on_machine (get_module_export m (pos i))
  ename ← on_machine (get_export_name exp)
  same ← on_machine (same_string function ename)
  if same then (do adr ← on_machine (export_at exp exp_adr); pure (some adr)) else pure none

-- 0 if the module has no export of the name.
unfoldable pub get_function_address : ℕ → Chars → L ℕ
unfolding exported
get_function_address m function = do
  a ← on_machine (field_at m exports)
  if a == 0 then pure 0 else (do
    len ← n_exports m
    found ← find_each (rounds_below len) 0 (exported m function)
    elim found [ none ↦ pure 0 | some adr ↦ pure adr ])
