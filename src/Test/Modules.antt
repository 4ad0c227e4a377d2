-- ===== src/Test/Modules.antt =====
-- The theorems on the loader of modules, with two modules in the memory.
use oberon.Prelude.{ℕ, ◌*◌, ◌≡◌, refl, arith, false, some, none, List, [], ◌∷◌, ◌++◌}
use oberon.Prelude.Tests.{if◌then◌else◌}
use oberon.Prelude.Int.{pos}
use oberon.Prelude.Text.{codes, same_text}
use oberon.Prelude.Word.{sub32}
use oberon.Machine.State.{returns, Halt, ◌>>◌, undefined}
use oberon.Machine.Memory.{store4, with_bytes}
use oberon.Fileutils.{Files, find_file_and_open, search_elements}
use oberon.Fileutils.Search.{joined, search_in_order}
use oberon.Instruction.Jump.{jal, jump, construct_jal, construct_jump}
use oberon.Machine.Register.{retadr}
use oberon.Shift.{field}
use oberon.O3 as O3
use oberon.O3.Layout.{literal}
use oberon.O3.Loader.{Loader, did, stops, in_machine}
use oberon.O3.Modules.{add_module, find_module, find_module_and_offset}
use oberon.O3.Descriptors.{get_function_address}
use oberon.O3.Segments.{fix_abs, fix_rel, fixup_at}
use oberon.O3.Uses.{check_structure_fingerprint}
use oberon.O3.Load.{load}
use oberon.O3.Chain.{IsMapped, Modules}
use oberon.O3.Added.{add_module-Modules, added}
use oberon.O3.Walked.{addresses}
use oberon.O3.Found.{find_module-find, AllNamed}
use oberon.O3.Located.{Code, find_module_and_offset-locate}
use oberon.O3.Known.{load_again, load_missing, counted}
use oberon.O3.Exports.{get_function_address-address_of, HasExports, Entry}
use oberon.O3.Unchecked.{fingerprint_unchecked}
use oberon.O3.Fixed.{call_fixed, jump_fixed}
use oberon.O3.Privates.{privates_undefined}
use oberon.O3.Blocks.{read_privates}
use oberon.Test.{machine, machine_memory}

abbrev words : List (ℕ × ℕ) → ℕ → ℕ
words [] = λ q. 0
words ((p, v) ∷ ws) = store4 (words ws) p v

-- Kernel at 4352, which exports New, and Fs at 4416.
abbrev memory_words : List (ℕ × ℕ)
memory_words =
    (4352, 4416)
    ∷ (4372, 4608)
    ∷ (4412, 4480)
    ∷ (4476, 4488)
    ∷ (4480, 0x6e72654b)
    ∷ (4484, 0x6c65)
    ∷ (4488, 0x7346)
    ∷ (4500, 0x77654e)
    ∷ (4600, 1)
    ∷ (4608, 4500)
    ∷ (4620, 4700)
    ∷ (4624, 6)
    ∷ []

abbrev pub loader : Loader
loader = record {
  machine = record machine { bytes = words memory_words };
  heap = record { oberon_heap = 4108; curr_heap = 5132 };
  file = record { build = machine.build; rest = []; strings = [] };
  td_adr = λ i. 0;
  uses_info = λ i. record { name = 0; pbfprint = pos 0; umod = 0 };
  uses_list = [];
  module_list = 4352;
  current_module_name = [];
  n_loaded = pos 2;
  ignore_helper_fixups = false;
  bootstrap_adr = 0;
}

abbrev modules : List (ℕ × List ℕ)
modules = (4352, codes "Kernel") ∷ (4416, codes "Fs") ∷ []

abbrev exports : List Entry
exports = record { name = codes "New"; adr = 4700; kind = 6 } ∷ []

loader-IsMapped : IsMapped loader.machine
loader-IsMapped = record { positive = omega arith; whole = omega arith; small = omega arith }

loader-Modules : Modules loader.machine loader.module_list (addresses modules)
loader-Modules = (refl, omega arith, omega arith, (refl, omega arith, omega arith, refl))

loader-AllNamed : AllNamed loader.machine modules
loader-AllNamed = omega arith

kernel-HasExports : HasExports loader.machine 4352 4608 exports
kernel-HasExports = record {
  above = omega arith;
  inside = omega arith;
  at = refl;
  from = omega arith;
  upto = omega arith;
  len = refl;
  few = omega arith;
  table = omega arith;
}

add_module-Modules_example :
    (add_module 5136 loader ≡ did tt (added 5136 (addresses modules) loader))
    × Modules
        (added 5136 (addresses modules) loader).machine
        (added 5136 (addresses modules) loader).module_list
        (addresses modules ++ (5136 ∷ []))
add_module-Modules_example =
    add_module-Modules loader loader-IsMapped 5136 (omega arith) (omega arith) (addresses modules)
      loader-Modules (omega arith)

find_module-find_example : find_module (codes "Fs") loader ≡ did (some 4416) loader
find_module-find_example =
    find_module-find loader loader-IsMapped (codes "Fs") (omega arith) modules loader-Modules
      loader-AllNamed

-- The same modules with code of 8 and of 12 bytes.
abbrev coded : Loader
coded = record loader {
  machine = record machine {
    bytes = words ((4352, 4416) ∷ (4404, 4720) ∷ (4712, 8) ∷ (4468, 4752) ∷ (4744, 12) ∷ []);
  };
}

abbrev coded_modules : List (ℕ × Code)
coded_modules =
    (4352, record { at = 4720; bytes = 8 }) ∷ (4416, record { at = 4752; bytes = 12 }) ∷ []

find_module_and_offset-locate_example :
    find_module_and_offset 4760 coded ≡ did (some (4416, pos 8)) coded
find_module_and_offset-locate_example =
    find_module_and_offset-locate coded
      (record { positive = omega arith; whole = omega arith; small = omega arith }) 4760
      (omega arith) coded_modules
      (refl, omega arith, omega arith, (refl, omega arith, omega arith, refl)) (omega arith)

-- One element, "/o", with the file F.Obj, which is empty.
abbrev files : Files
files path = if same_text path (codes "/o/F.Obj") then some (some []) else none

load_again_example : load files [] (codes "Fs") loader ≡ did (some 4416) (counted (pos 3) loader)
unfolding O3.add
load_again_example =
    load_again files [] loader loader-IsMapped (codes "Fs") (omega arith) modules loader-Modules
      loader-AllNamed refl refl

load_missing_example : load files [] (codes "G") loader ≡ stops (in_machine Halt.assertion)
unfolding O3.add find_file_and_open
load_missing_example =
    load_missing files [] loader loader-IsMapped (codes "G") (omega arith) modules loader-Modules
      loader-AllNamed refl refl refl

get_function_address-address_of_example :
    get_function_address 4352 (literal (codes "New")) loader ≡ did 4700 loader
get_function_address-address_of_example =
    get_function_address-address_of loader loader-IsMapped 4352 4608 exports kernel-HasExports
      (codes "New") (omega arith)

fingerprint_unchecked_example :
    check_structure_fingerprint (some 4352) (some 4500) (pos 77) false loader ≡ did tt loader
fingerprint_unchecked_example =
    fingerprint_unchecked loader loader-IsMapped 4352 4608 exports kernel-HasExports 4500
      (codes "New") (omega arith) (omega arith) (pos 77) false (omega arith)

call_fixed_example :
    (fixup_at fix_abs 5004 4700 >> construct_jal 5000 (31 * 2097152)) loader.machine
    ≡ returns
        (jal retadr 4700 5008)
        (with_bytes (store4 (words memory_words) 5004 4700) loader.machine)
unfolding field
call_fixed_example =
    call_fixed loader.machine loader-IsMapped machine_memory 5000 4700 (omega arith) (omega arith)
      (omega arith) (omega arith) (31 * 2097152) refl refl

jump_fixed_example :
    (fixup_at fix_rel 5004 4700 >> construct_jump 5000) loader.machine
    ≡ returns
        (jump (sub32 4700 5012) 4696)
        (with_bytes (store4 (words memory_words) 5004 (sub32 4700 5012)) loader.machine)
jump_fixed_example =
    jump_fixed loader.machine loader-IsMapped machine_memory 5000 4700 (omega arith) (omega arith)
      (omega arith) (omega arith)

-- Fs with private symbols at 4608.
abbrev with_privates : Loader
with_privates = record loader { machine = record machine { bytes = words ((4440, 4608) ∷ []) } }

privates_undefined_example : read_privates 4416 (pos 1) with_privates ≡ stops (in_machine undefined)
privates_undefined_example =
    privates_undefined 4416 0 4608 with_privates
      (record { positive = omega arith; whole = omega arith; small = omega arith }) (omega arith)
      (omega arith) (omega arith) refl (omega arith) (omega arith)

search_in_order_example :
    find_file_and_open files
      (search_elements (joined (codes "/p" ∷ codes "/o" ∷ [])))
      (codes "F.Obj")
    ≡ some (some [])
search_in_order_example =
    search_in_order files (codes "F.Obj") (codes "/p" ∷ []) [] 47 (codes "o")
      (
        ((λ h. absurd (omega arith)), ((λ h. absurd (omega arith)), tt)),
        (((λ h. absurd (omega arith)), ((λ h. absurd (omega arith)), tt)), tt),
      )
      (refl, tt) refl
