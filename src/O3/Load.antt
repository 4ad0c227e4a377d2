-- ===== src/O3/Load.antt =====
-- loader/o3.cpp: the loading of a module.
use oberon.Prelude.{ℕ, false, Option, none, some, List, [], ◌++◌}
use oberon.Prelude.Int.{pos}
use oberon.Prelude.Text.{codes}
use oberon.O3 as O3
use oberon.Fileutils.{Files, find_file_and_open}
use oberon.O3.Input.{read_tag}
use oberon.O3.Header.{ObjfHeader, read_magic_block, read_header}
use oberon.O3.Loader.{L, did, pure, ◌>>=◌, ◌>>◌, on_file, defined, assert}
use oberon.O3.Modules.{each_module, walk_modules, named, lookup_command, verify_module_name}
use oberon.O3.Allocations.{c_string, new_module}
use oberon.O3.Blocks.{
  read_imports, read_exports, read_privates, read_commands, read_pointers, read_constants,
  read_typedescdata, read_code, read_reference,
}
use oberon.O3.TypeBlocks.{read_typedescriptors}
use oberon.O3.Uses.{read_uses, read_helper_fixups, read_fixups}

-- The tables of the object file are new with each file.
abbrev pub opened : List ℕ → L (Unit {0})
opened content l =
    did tt (record l { file = record { build = l.machine.build; rest = content; strings = [] } })

abbrev pub with_name : List ℕ → L (Unit {0})
with_name s l = did tt (record l { current_module_name = s })

abbrev pub tagged : ℕ → L (Unit {0}) → L (Unit {0})
tagged tag block = on_file (read_tag tag) >> block

-- The blocks, each after its tag.
unfoldable pub load_blocks : ℕ → ObjfHeader → L (Unit {0})
load_blocks m h = do
  tagged 0x81 (read_imports m h.nof_imports)
  tagged 0x82 (read_exports m h.n_exports)
  tagged 0x83 (read_privates m h.nof_prv)
  tagged 0x84 (on_file (read_typedescriptors h.nof_desc))
  tagged 0x85 (read_commands m h.nof_com)
  tagged 0x86 (read_pointers m h.nof_ptr)
  tagged 0x87 (read_constants m h.const_size)
  tagged 0x88 (read_typedescdata m h.typedesc_size)
  tagged 0x89 (read_code m h.code_size)
  tagged 0x8a (read_uses m h.nof_imports)
  tagged 0x8b (read_helper_fixups m h.nof_helpers)
  tagged 0x8c (read_fixups m h.n_fixups)
  tagged 0x8d (read_reference m h.ref_size)

unfoldable pub load_object : List ℕ → L (Option ℕ)
unfolding c_string new_module load_blocks
load_object content = do
  opened content
  on_file read_magic_block
  header ← on_file read_header
  s ← c_string header.name
  with_name s
  m ← new_module header
  load_blocks m header
  pure (some m)

abbrev pub count_loaded : L (Unit {0})
count_loaded l =
    (do n ← defined (O3.add l.n_loaded (pos 1)); λ t. did tt (record t { n_loaded = n })) l

module _ (files : Files) (search_path : List (List ℕ)) where
  unfoldable pub open_object : List ℕ → L (Option (List ℕ))
  unfolding find_file_and_open
  open_object s = do
    fp ← defined (find_file_and_open files search_path (s ++ codes ".Obj"))
    elim fp [ none ↦ do assert false; pure none | some content ↦ pure (some content) ]

  unfoldable pub load : List ℕ → L (Option ℕ)
  unfolding walk_modules named open_object load_object
  load s = do
    known ← each_module (named s)
    found ← elim known [
      | some m ↦ pure (some m)
      | none ↦ do
        obj ← open_object s
        elim obj [ none ↦ pure none | some content ↦ load_object content ]
    ]
    count_loaded
    pure found

-- The table of bootstrap symbols has one entry.
unfoldable pub lookup_kernel_bootstrap_symbols : ℕ → L (Unit {0})
unfolding lookup_command verify_module_name
lookup_kernel_bootstrap_symbols m = do
  verify_module_name m (codes "Kernel")
  adr ← lookup_command m (codes "BootstrapModuleInit")
  λ l. did tt (record l { bootstrap_adr = adr })
