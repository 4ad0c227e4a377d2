-- ===== src/O3/Known.antt =====
-- loader/o3.cpp: a module is loaded once.
use oberon.Prelude.{ℕ, ◌≡◌, refl, arith, List, ◌++◌, none, some}
use oberon.Prelude.Int.{ℤ, pos}
use oberon.Prelude.Text.{codes}
use oberon.O3 as O3
use oberon.Machine.State.{release, alpha, beta, Halt}
use oberon.Fileutils.{Files, find_file_and_open}
use oberon.O3.Loader.{Loader, did, stops, in_machine}
use oberon.O3.Modules.{find_module}
use oberon.O3.Chain.{IsMapped, Modules}
use oberon.O3.Walked.{addresses}
use oberon.O3.Found.{Positive, AllNamed, find, find_module-find}
use oberon.O3.Load.{load, open_object}

abbrev pub counted : ℤ → Loader → Loader
counted n l = record l { n_loaded = n }

module _ (files : Files) (path : List (List ℕ)) (l : Loader) (is : IsMapped l.machine) (s : List ℕ)
    (plain : Positive s) (ms : List (ℕ × List ℕ))
    (chain : Modules l.machine l.module_list (addresses ms)) (names : AllNamed l.machine ms) {n : ℤ}
    (counts : O3.add l.n_loaded (pos 1) ≡ some n) where
  -- Where the modules of the list lie at growing addresses in a mapped memory and each leads to
  -- its name there, load of the name of one of them returns the first module of that name, reads
  -- no file, and only counts one more loaded module, if the count does not overflow.
  pub load_again : {p : ℕ} → find s ms ≡ some p → load files path s l ≡ did (some p) (counted n l)
  unfolding load find_module
  load_again here = rw (find_module-find l is s plain ms chain names, here, counts) refl

  -- Under the same conditions, load of a name that no module of the list has, and whose object
  -- file the search does not find, ends the program where assertions are compiled, and in a
  -- release build returns no module but counts one more.
  pub load_missing :
      find s ms ≡ none
      → find_file_and_open files path (s ++ codes ".Obj") ≡ some none
      → load files path s l ≡ (elim (l.machine.build) [
        | release ↦ did none (counted n l)
        | alpha ↦ stops (in_machine Halt.assertion)
        | beta ↦ stops (in_machine Halt.assertion)
      ])
  unfolding load find_module open_object
  load_missing absent nowhere =
      rw (find_module-find l is s plain ms chain names, absent, nowhere) (ground (arith, counts))
