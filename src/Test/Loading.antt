-- ===== src/Test/Loading.antt =====
-- The theorems on the loader of modules at the empty heap and at the end of a file.
use oberon.Prelude.{◌+◌, ◌-◌, ◌≡◌, ◌≢◌, refl, arith, []}
use oberon.Prelude.Int.{pos}
use oberon.Prelude.Text.{codes}
use oberon.O3.Allocations.{new_string}
use oberon.O3.Loader.{Loader, did, stops, unending}
use oberon.O3.NewString.{new_string-Text, HasString}
use oberon.O3.Uses.{read_uses, helper_locations, file_fuel}
use oberon.O3.UsesEnd.{marked_loops_end}
use oberon.Test.Heaps.{megabyte, heap, empty, empty-IsHeap, descriptor}
use oberon.Test.Modules.{loader}

-- The descriptor td_refs is the last paragraph.
abbrev bare : Loader
bare = record loader {
  machine = empty;
  heap = heap;
  td_adr = λ i. megabyte + megabyte - 16;
  module_list = 0;
}

new_string-Text_example :
    (l' : Loader) × (new_string (codes "Kernel") bare ≡ did (megabyte + 12 + 20) l')
    × HasString bare [] (codes "Kernel") l'
new_string-Text_example =
    new_string-Text bare empty-IsHeap descriptor [] refl (codes "Kernel") (omega arith)
      (omega arith) (omega arith)

marked_loops_end_example :
    (read_uses 4352 (pos 1) loader ≢ stops unending)
    × (helper_locations (file_fuel loader) 4352 4700 loader ≢ stops unending)
marked_loops_end_example = marked_loops_end 4352 4700 (pos 1) loader
