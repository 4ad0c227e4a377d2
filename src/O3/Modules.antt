-- ===== src/O3/Modules.antt =====
-- loader/o3.cpp: the list of modules, which links them by their field `next`.
use oberon.Prelude.{ℕ, zero, suc, ◌&&◌, Option, none, some, List}
use oberon.Prelude.Tests.{◌==◌, leb, ltb, if◌then◌else◌}
use oberon.Prelude.Int.{ℤ, pos}
use oberon.Prelude.Word.{add32, sub32, int32}
use oberon.Machine.State.{undefined}
use oberon.Machine.Memory.{Haddr}
use oberon.Heap.{heap_address, host_address}
use oberon.Heap.Arrays.{record_elem_array_len, simple_elem_array_len}
use oberon.O3.Layout.{
  next, commands, code, literal, cmd_name, cmd_adr, field_at, set_field, cmd_at, module_name,
  get_module_command, same_string,
}
use oberon.O3.Loader.{
  Loader, L, did, in_machine, unending, pure, stop, fatal, ◌>>=◌, ◌>>◌, on_machine, assert,
  find_each, rounds_below,
}

-- A loop over the modules from `m` on, which ends early when the body gives a value. `n` is the
-- number of rounds after which it is given up.
unfoldable pub walk_modules : {A : Type 0} → ℕ → Haddr → (ℕ → L (Option A)) → L (Option A)
walk_modules n none body = pure none
walk_modules zero (some m) body = stop unending
walk_modules (suc n) (some m) body = do
  found ← body m
  elim found [
    | some a ↦ pure (some a)
    | none ↦ do
      a ← on_machine (field_at m next)
      following ← on_machine (host_address a)
      walk_modules n following body
  ]

-- Every module of a list has an address of its own in the block.
abbrev pub list_fuel : Loader → ℕ
list_fuel l = suc l.machine.block.size

-- From the variable `module_list`.
abbrev pub each_module : {A : Type 0} → (ℕ → L (Option A)) → L (Option A)
each_module body l =
    (do first ← on_machine (host_address l.module_list); walk_modules (list_fuel l) first body) l

-- The last module of the list from `m` on.
unfoldable pub last_module : ℕ → ℕ → L ℕ
last_module zero m = stop unending
last_module (suc n) m = do
  a ← on_machine (field_at m next)
  let rest = (do
    following ← on_machine (host_address a)
    elim following [ none ↦ stop (in_machine undefined) | some q ↦ last_module n q ])
  if a == 0 then pure m else rest

abbrev pub with_module_list : ℕ → Loader → Loader
with_module_list a l = record l { module_list = a }

unfoldable pub add_module : ℕ → L (Unit {0})
unfolding last_module
add_module m l =
    (do
      first ← on_machine (host_address l.module_list)
      elim first [
        | some p ↦ do
          last ← last_module (list_fuel l) p
          a ← on_machine (heap_address (some m))
          on_machine (set_field last next a)
        | none ↦ do a ← on_machine (heap_address (some m)); λ t. did tt (with_module_list a t)
      ]
      on_machine (set_field m next 0))
      l

-- The module if it has the name.
unfoldable pub named : List ℕ → ℕ → L (Option ℕ)
named s m = do
  mname ← on_machine (module_name m)
  same ← on_machine (same_string (literal s) mname)
  if same then pure (some m) else pure none

unfoldable pub find_module : List ℕ → L (Option ℕ)
unfolding walk_modules named
find_module s = each_module (named s)

-- The offset of an address in the code of the module.
unfoldable pub offset_in : ℕ → ℕ → L (Option (ℕ × ℤ))
offset_in address m = do
  code_at ← on_machine (field_at m code)
  host ← on_machine (host_address code_at)
  code_bytes ← on_machine (simple_elem_array_len host)
  if leb code_at address && ltb address (add32 code_at code_bytes)
      then pure (some (m, int32 (sub32 address code_at)))
      else pure none

unfoldable pub find_module_and_offset : ℕ → L (Option (ℕ × ℤ))
unfolding walk_modules offset_in
find_module_and_offset address = each_module (offset_in address)

-- The address of the command if it has the name.
unfoldable pub command_adr : ℕ → List ℕ → ℕ → L (Option ℕ)
command_adr m helper i = do
  cmd ← on_machine (get_module_command m (pos i))
  a ← on_machine (cmd_at cmd cmd_name)
  cname ← on_machine (host_address a)
  same ← on_machine (same_string (literal helper) cname)
  if same then (do adr ← on_machine (cmd_at cmd cmd_adr); pure (some adr)) else pure none

unfoldable pub lookup_command : ℕ → List ℕ → L ℕ
unfolding command_adr
lookup_command m helper = do
  a ← on_machine (field_at m commands)
  host ← on_machine (host_address a)
  len ← on_machine (record_elem_array_len host)
  found ← find_each (rounds_below len) 0 (command_adr m helper)
  elim found [ none ↦ fatal | some adr ↦ pure adr ]

unfoldable pub verify_module_name : ℕ → List ℕ → L (Unit {0})
verify_module_name m mname = do
  n ← on_machine (module_name m)
  same ← on_machine (same_string (literal mname) n)
  assert same
