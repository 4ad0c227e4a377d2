-- ===== src/O3/Loader.antt =====
-- loader/o3.cpp: the state of the loader of modules, which is the variables of the file, the heap and
-- the open object file, and the monad of its functions.
use oberon.Prelude.{ℕ, zero, suc, ◌+◌, Bool, Option, none, some, List, [], ◌∷◌}
use oberon.Prelude.Tests.{leb, if◌then◌else◌}
use oberon.Prelude.Int.{ℤ, pos, negsuc, pos_part, neg_part, ◌+ℤ◌}
use oberon.Prelude.Word.{int32}
use oberon.Machine.State as Machine
use oberon.Machine.State.{Machine, M, Outcome, Halt, undefined}
use oberon.Machine.Memory.{Haddr}
use oberon.Heap.{Heap}
use oberon.Objio.{ObjFile, Reader, Reading, End}
use oberon.Objio as Objio

-- td_names_t.
pub data TdName : Type 0 where
  td_module td_vmsvc td_tdescs td_exports td_privates td_commands td_pointers : TdName
  td_imports td_jumps td_data td_tddata td_code td_refs td_name : TdName

-- The order of the array `td_info`.
abbrev pub td_names : List TdName
td_names =
    td_module ∷ td_vmsvc ∷ td_tdescs ∷ td_exports ∷ td_privates ∷ td_commands ∷ td_pointers
    ∷ td_imports ∷ td_jumps ∷ td_data ∷ td_tddata ∷ td_code ∷ td_refs ∷ td_name ∷ []

abbrev pub td_index : TdName → ℕ
td_index td_module = 0
td_index td_vmsvc = 1
td_index td_tdescs = 2
td_index td_exports = 3
td_index td_privates = 4
td_index td_commands = 5
td_index td_pointers = 6
td_index td_imports = 7
td_index td_jumps = 8
td_index td_data = 9
td_index td_tddata = 10
td_index td_code = 11
td_index td_refs = 12
td_index td_name = 13

-- uses_info_t.
pub record UsesInfo : Type 0 where
  pub name : ℕ
  pub pbfprint : ℤ
  pub umod : ℕ

-- `td_adr` is the field `adr` of the entries of td_info by their index, and `uses_list` has the names
-- of the list, the newest first. `ignore_helper_fixups` is that option of config.h.
pub record Loader : Type 0 where
  pub machine : Machine
  pub heap : Heap
  pub file : ObjFile
  pub td_adr : ℕ → ℕ
  pub uses_info : ℕ → UsesInfo
  pub uses_list : List Haddr
  pub module_list : ℕ
  pub current_module_name : List ℕ
  pub n_loaded : ℤ
  pub ignore_helper_fixups : Bool
  pub bootstrap_adr : ℕ

-- How the program ends: in the memory, in the object file, at a negative count, for which the heap
-- has no model, or in a loop that goes on for more rounds than its fuel.
pub data Stop : Type 0 where
  in_machine : Halt → Stop
  in_file : End → Stop
  negative_count unending : Stop

pub data Loading (A : Type 0) : Type 0 where
  did : A → Loader → Loading A
  stops : Stop → Loading A

abbrev pub L : Type 0 → Type 0
L A = Loader → Loading A

abbrev pub pure : {A : Type 0} → A → L A
pure a l = did a l

abbrev pub stop : {A : Type 0} → Stop → L A
stop s l = stops s

abbrev pub bind : {A B : Type 0} → Loading A → (A → L B) → Loading B
bind (did a l) k = k a l
bind (stops s) k = stops s

infixl 5 ◌>>=◌ ◌>>◌
abbrev pub ◌>>=◌ : {A B : Type 0} → L A → (A → L B) → L B
◌>>=◌ m k l = bind (m l) k

abbrev pub ◌>>◌ : {B : Type 0} → L (Unit {0}) → L B → L B
m >> k = m >>= λ _. k

abbrev pub fatal : {A : Type 0} → L A
fatal = stop (in_machine Halt.fatal)

-- A function on the memory, on the memory and the heap, and on the object file.
abbrev pub after_machine : {A : Type 0} → Loader → Outcome A → Loading A
after_machine l (Machine.returns a m) = did a (record l { machine = m })
after_machine l (Machine.halts h) = stops (in_machine h)

abbrev pub on_machine : {A : Type 0} → M A → L A
on_machine f l = after_machine l (f l.machine)

abbrev pub after_heap : {A : Type 0} → Loader → Outcome (A × Heap) → Loading A
after_heap l (Machine.returns (a, h) m) = did a (record l { machine = m; heap = h })
after_heap l (Machine.halts h) = stops (in_machine h)

abbrev pub on_heap : {A : Type 0} → (Heap → M (A × Heap)) → L A
on_heap f l = after_heap l (f l.heap l.machine)

abbrev pub after_file : {A : Type 0} → Loader → Reading A → Loading A
after_file l (Objio.got a f) = did a (record l { file = f })
after_file l (Objio.ends e) = stops (in_file e)

abbrev pub on_file : {A : Type 0} → Reader A → L A
on_file r l = after_file l (r l.file)

abbrev pub defined : {A : Type 0} → Option A → L A
defined v = on_machine (Machine.defined v)

abbrev pub assert : Bool → L (Unit {0})
assert b = on_machine (Machine.assert b)

-- A number of elements.
abbrev pub count : ℤ → L ℕ
count (pos n) = pure n
count (negsuc n) = stop negative_count

-- A loop for i = `i`, `i` + 1, ..., of `n` rounds.
abbrev pub for_each : ℕ → ℕ → (ℕ → L (Unit {0})) → L (Unit {0})
for_each zero i body = pure tt
for_each (suc n) i body = body i >> for_each n (i + 1) body

-- A loop that ends early when the body gives a value.
abbrev pub find_each : {A : Type 0} → ℕ → ℕ → (ℕ → L (Option A)) → L (Option A)
find_each zero i body = pure none
find_each (suc n) i body = do
  found ← body i
  let rest = find_each n (i + 1) body
  elim found [ none ↦ rest | some a ↦ pure (some a) ]

-- The rounds of a loop below a word that is read as an `int`.
abbrev pub rounds_below : ℕ → ℕ
rounds_below len = pos_part (int32 len)

-- `p + n` of a pointer to bytes; below address 0 it is undefined.
abbrev pub displaced : ℕ → ℤ → Option ℕ
displaced p n =
    if leb (neg_part n) (p + pos_part n) then Option.some (pos_part (pos p +ℤ n)) else none
