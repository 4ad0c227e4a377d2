-- ===== src/O3/Layout.antt =====
-- loader/o3.h: the structures of the Oberon system that the loader of modules reads and writes, at
-- their offsets in the memory, and the comparison of strings there.
use oberon.Prelude.{ℕ, zero, suc, ◌+◌, ◌*◌, Bool, true, false, none, some, List, [], ◌∷◌}
use oberon.Prelude.Tests.{◌==◌, if◌then◌else◌}
use oberon.Prelude.Int.{ℤ, pos, negsuc}
use oberon.Machine.State.{M, pure, halt, undefined, ◌>>=◌}
use oberon.Machine.Memory.{Haddr, read_1_ze, read_2_ze, read_4_ze, write_4}
use oberon.Heap.{host_address}

-- The fields of module_t; `bytes` is its field `data`.
pub data ModuleField : Type 0 where
  next refcnt sb finalize tdescs exports privates commands : ModuleField
  pointers imports jumps bytes tddata code refs name : ModuleField

abbrev pub offset_of : ModuleField → ℕ
offset_of next = 0
offset_of refcnt = 4
offset_of sb = 8
offset_of finalize = 12
offset_of tdescs = 16
offset_of exports = 20
offset_of privates = 24
offset_of commands = 28
offset_of pointers = 32
offset_of imports = 36
offset_of jumps = 40
offset_of bytes = 44
offset_of tddata = 48
offset_of code = 52
offset_of refs = 56
offset_of name = 60

abbrev pub sizeof_module_t : ℕ
sizeof_module_t = 0x40

-- The fields of export_t.
pub data ExportField : Type 0 where
  exp_name exp_fprint exp_pvfprint exp_adr exp_kind : ExportField

abbrev pub export_offset : ExportField → ℕ
export_offset exp_name = 0
export_offset exp_fprint = 4
export_offset exp_pvfprint = 8
export_offset exp_adr = 12
export_offset exp_kind = 16

abbrev pub sizeof_export_t : ℕ
sizeof_export_t = 20

-- The fields of cmd_t.
pub data CmdField : Type 0 where
  cmd_name cmd_adr : CmdField

abbrev pub cmd_offset : CmdField → ℕ
cmd_offset cmd_name = 0
cmd_offset cmd_adr = 4

abbrev pub sizeof_cmd_t : ℕ
sizeof_cmd_t = 8

-- A field of the structure at a host address.
abbrev pub field_at : ℕ → ModuleField → M ℕ
field_at m f = read_4_ze (some (m + offset_of f))

abbrev pub set_field : ℕ → ModuleField → ℕ → M (Unit {0})
set_field m f v = write_4 (some (m + offset_of f)) v

abbrev pub export_at : ℕ → ExportField → M ℕ
export_at e exp_kind = read_2_ze (some (e + export_offset exp_kind))
export_at e f = read_4_ze (some (e + export_offset f))

abbrev pub cmd_at : ℕ → CmdField → M ℕ
cmd_at c f = read_4_ze (some (c + cmd_offset f))

-- `p + n` of a pointer to bytes.
abbrev pub ahead : Haddr → ℕ → Haddr
ahead none n = none
ahead (some p) n = some (p + n)

-- `&p[n]` of an array of elements of `size` bytes; below the array the address is undefined.
abbrev pub element : Haddr → ℕ → ℤ → M ℕ
element none size n = halt undefined
element (some p) size (negsuc n) = halt undefined
element (some p) size (pos n) = pure (p + n * size)

unfoldable pub get_module_export : ℕ → ℤ → M ℕ
get_module_export m n = do
  a ← field_at m exports
  expp ← host_address a
  element expp sizeof_export_t n

unfoldable pub get_module_private : ℕ → ℤ → M ℕ
get_module_private m n = do
  a ← field_at m privates
  prip ← host_address a
  element prip sizeof_export_t n

unfoldable pub get_export_name : ℕ → M Haddr
get_export_name exp = do a ← export_at exp exp_name; host_address a

unfoldable pub get_module_command : ℕ → ℤ → M ℕ
get_module_command m n = do
  a ← field_at m commands
  cmdp ← host_address a
  element cmdp sizeof_cmd_t n

unfoldable pub module_name : ℕ → M Haddr
module_name m = do a ← field_at m name; host_address a

-- A C string of the program, or one in the memory.
pub data Chars : Type 0 where
  literal : List ℕ → Chars
  stored : Haddr → Chars

-- `strcmp` is 0 between the string at `p` and the bytes; it stops at the first difference.
abbrev pub equals : ℕ → List ℕ → M Bool
equals p [] = do b ← read_1_ze (some p); pure (b == 0)
equals p (c ∷ cs) = do b ← read_1_ze (some p); if b == c then equals (p + 1) cs else pure false

-- Between two strings of the memory. After `n` equal bytes other than 0 a read is out of the block.
unfoldable pub equal_strings : ℕ → ℕ → ℕ → M Bool
equal_strings zero p q = halt undefined
equal_strings (suc n) p q = do
  a ← read_1_ze (some p)
  b ← read_1_ze (some q)
  if a == b then (if a == 0 then pure true else equal_strings n (p + 1) (q + 1)) else pure false

unfoldable pub same_string : Chars → Haddr → M Bool
unfolding equal_strings
same_string s none = halt undefined
same_string (literal cs) (some q) = equals q cs
same_string (stored none) (some q) = halt undefined
same_string (stored (some p)) (some q) = λ m. equal_strings (suc m.block.size) p q m
