-- ===== src/O3/Blocks.antt =====
-- loader/o3.cpp: the blocks of an object file that fill the arrays of a module.
use oberon.Prelude.{ℕ, ◌+◌, ◌*◌, Bool, ◌||◌, not, none, some, List, [], ◌∷◌}
use oberon.Prelude.Tests.{◌==◌, if◌then◌else◌}
use oberon.Prelude.Int.{ℤ, pos, pos_part}
use oberon.Prelude.Word.{pattern32, int32, uint16, int8}
use oberon.Machine.State.{M, undefined}
use oberon.Machine.State as Machine
use oberon.Machine.Memory.{Haddr, read_1_ze, write_1, write_2, write_4}
use oberon.Heap.{host_address, heap_address}
use oberon.O3.Input.{read_ch, read_num, read_str, read_bytes}
use oberon.O3.Layout.{
  ModuleField, privates, exports, commands, pointers, imports, sb, bytes, tddata, code, refs,
  export_offset, exp_name, exp_fprint, exp_pvfprint, exp_adr, exp_kind, sizeof_export_t,
  sizeof_cmd_t, cmd_offset, cmd_name, cmd_adr, field_at, ahead, element,
}
use oberon.O3.Loader.{
  L, in_machine, pure, stop, fatal, ◌>>=◌, ◌>>◌, on_machine, on_file, defined, assert, count,
  for_each, displaced,
}
use oberon.O3.Modules.{find_module}
use oberon.O3.Allocations.{c_string, new_string}

-- The array of a field.
abbrev pub array_at : ℕ → ModuleField → L Haddr
array_at m f = do a ← on_machine (field_at m f); on_machine (host_address a)

-- The name that is read next.
abbrev pub read_name : L (List ℕ)
read_name = do raw ← on_file read_str; c_string raw

unfoldable pub read_import : Haddr → ℕ → L (Unit {0})
unfolding c_string
read_import imps i = do
  mname ← read_name
  found ← find_module mname
  m ← on_machine (heap_address found)
  assert (not (m == 0))
  on_machine (write_4 (ahead imps (i * 4)) m)

unfoldable pub read_imports : ℕ → ℤ → L (Unit {0})
unfolding read_import
read_imports m n = do imps ← array_at m imports; for_each (pos_part n) 0 (read_import imps)

-- Econst, Etype, Evar, Exproc, Ecproc, Erectd, Edarrtd and Earrtd; Estruc is 6.
abbrev pub plain_symbol : ℕ → Bool
plain_symbol kind =
    kind == 1
    || kind == 2
    || kind == 3
    || kind == 4
    || kind == 5
    || kind == 8
    || kind == 9
    || kind == 10

-- `info.kind = ch` extends the sign of a `char`.
abbrev pub kind_word : ℕ → ℕ
kind_word ch = uint16 (pattern32 (int8 ch))

unfoldable pub read_symbol_info : ℕ → L (Unit {0})
unfolding c_string new_string
read_symbol_info p = do
  on_machine (write_4 (some (p + export_offset exp_pvfprint)) 0)
  ch ← on_file read_ch
  on_machine (write_2 (some (p + export_offset exp_kind)) (kind_word ch))
  s ← read_name
  name ← new_string s
  on_machine (write_4 (some (p + export_offset exp_name)) name)
  fp ← on_file read_num
  on_machine (write_4 (some (p + export_offset exp_fprint)) (pattern32 fp))
  on_machine (write_4 (some (p + export_offset exp_adr)) 0)
  if plain_symbol ch
      then pure tt
      else if ch == 6
      then (do
        pv ← on_file read_num
        on_machine (write_4 (some (p + export_offset exp_pvfprint)) (pattern32 pv)))
      else fatal

unfoldable pub read_export : Haddr → ℕ → L (Unit {0})
unfolding read_symbol_info
read_export host i = do p ← on_machine (element host sizeof_export_t (pos i)); read_symbol_info p

unfoldable pub read_exports : ℕ → ℤ → L (Unit {0})
unfolding read_export
read_exports m n = do host ← array_at m exports; for_each (pos_part n) 0 (read_export host)

-- The code casts the byte `privates[i]` to a pointer.
unfoldable pub read_private : ℕ → ℕ → L (Unit {0})
unfolding read_symbol_info
read_private m i = do
  host ← array_at m privates
  byte ← on_machine (read_1_ze (ahead host i))
  read_symbol_info byte

unfoldable pub read_privates : ℕ → ℤ → L (Unit {0})
unfolding read_private
read_privates m n = for_each (pos_part n) 0 (read_private m)

unfoldable pub read_command : ℕ → ℕ → L (Unit {0})
unfolding c_string new_string
read_command m i = do
  cmds ← array_at m commands
  s ← read_name
  name ← new_string s
  p ← on_machine (element cmds sizeof_cmd_t (pos i))
  on_machine (write_4 (some (p + cmd_offset cmd_name)) name)
  on_machine (write_4 (some (p + cmd_offset cmd_adr)) 0)

unfoldable pub read_commands : ℕ → ℤ → L (Unit {0})
unfolding read_command
read_commands m n = for_each (pos_part n) 0 (read_command m)

-- `p + n` of a host pointer; from NULL or below address 0 it is undefined.
abbrev pub displaced_from : Haddr → ℤ → L Haddr
displaced_from none n = stop (in_machine undefined)
displaced_from (some p) n = do q ← defined (displaced p n); pure (some q)

-- The address of the static base in the data.
unfoldable pub data_base : ℕ → L Haddr
data_base m = do
  hp ← array_at m bytes
  base ← on_machine (field_at m sb)
  displaced_from hp (int32 base)

unfoldable pub read_pointer : ℕ → Haddr → ℕ → L (Unit {0})
unfolding data_base
read_pointer m ptrs i = do
  offs ← on_file read_num
  base ← data_base m
  p ← displaced_from base offs
  a ← on_machine (heap_address p)
  on_machine (write_4 (ahead ptrs (i * 4)) a)

unfoldable pub read_pointers : ℕ → ℤ → L (Unit {0})
unfolding read_pointer
read_pointers m n = do ptrs ← array_at m pointers; for_each (pos_part n) 0 (read_pointer m ptrs)

-- Bytes of the memory from `p` on.
abbrev pub write_bytes : Haddr → List ℕ → M (Unit {0})
write_bytes p [] = Machine.pure tt
write_bytes p (b ∷ bs) = Machine.◌>>◌ (write_1 p b) (write_bytes (ahead p 1) bs)

-- The next `n_bytes` of the file.
abbrev pub read_into : Haddr → ℤ → L (Unit {0})
read_into p n_bytes = do
  n ← count n_bytes
  bs ← on_file (read_bytes n)
  on_machine (write_bytes p bs)

unfoldable pub read_constants : ℕ → ℤ → L (Unit {0})
unfolding data_base
read_constants m n_bytes = do p ← data_base m; read_into p n_bytes

unfoldable pub read_typedescdata : ℕ → ℤ → L (Unit {0})
read_typedescdata m n_bytes = do p ← array_at m tddata; read_into p n_bytes

unfoldable pub read_code : ℕ → ℤ → L (Unit {0})
read_code m n_bytes = do p ← array_at m code; read_into p n_bytes

unfoldable pub read_reference : ℕ → ℤ → L (Unit {0})
read_reference m n_bytes = do p ← array_at m refs; read_into p n_bytes
