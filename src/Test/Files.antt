-- ===== src/Test/Files.antt =====
-- The theorems on object files at short files.
use oberon.Prelude.{◌≡◌, refl, arith, [], ◌∷◌, ◌++◌}
use oberon.Prelude.Int.{pos, negsuc}
use oberon.Machine.State.{alpha, release}
use oberon.Objio as Objio
use oberon.Objio.{ObjFile, got, ends, endless, with_rest}
use oberon.Objio.Num.{write_num, read_num-write_num}
use oberon.Objio.Strings.{read_string-again, read_twice, write_new, write_old, with_string}
use oberon.Objio.Locations.{write_locs, read_helper_desc-written, helper_locs-endless}
use oberon.Objio.Uses.{read_helper_desc, helper_locs}
use oberon.O3.Input
use oberon.O3.Agreed.{read_num_agrees}

abbrev file : ObjFile
file = record { build = alpha; rest = []; strings = [] }

-- A number of two bytes, and another byte.
abbrev released : ObjFile
released = record { build = release; rest = 0xac ∷ 2 ∷ 7 ∷ []; strings = [] }

read_num-write_num_example :
    Objio.read_num (with_rest (write_num 4 (negsuc 100000) ++ (7 ∷ [])) file)
    ≡ got (negsuc 100000) (with_rest (7 ∷ []) file)
read_num-write_num_example =
    read_num-write_num (negsuc 100000) file (7 ∷ []) (omega arith, omega arith)

read_string-again_example :
    read_twice (with_rest (write_new 3 (79 ∷ 75 ∷ []) (write_old 3 [])) file)
    ≡ got (79 ∷ 75 ∷ [], 79 ∷ 75 ∷ []) (with_rest [] (with_string 3 (79 ∷ 75 ∷ []) file))
read_string-again_example =
    read_string-again file 3 (79 ∷ 75 ∷ []) (omega arith)
      (omega arith, omega arith, (omega arith, omega arith, tt)) [] (omega arith) (omega arith)

read_num_agrees_example : Objio.read_num released ≡ Input.read_num released
read_num_agrees_example = read_num_agrees released refl tt

-- The helper "K" "N" at 300, 5 and 40, with a byte behind it.
read_helper_desc-written_example :
    read_helper_desc (
      with_rest
        (write_new 1
          (75 ∷ [])
          (write_new 2 (78 ∷ []) (write_locs (pos 300 ∷ pos 5 ∷ pos 40 ∷ []) (7 ∷ []))))
        file)
    ≡ got
        (record { module_name = 75 ∷ []; func = 78 ∷ []; locs = pos 40 ∷ pos 5 ∷ pos 300 ∷ [] })
        (with_rest (7 ∷ []) (with_string 2 (78 ∷ []) (with_string 1 (75 ∷ []) file)))
read_helper_desc-written_example =
    read_helper_desc-written file 1 2 (75 ∷ []) (78 ∷ []) (pos 300 ∷ pos 5 ∷ pos 40 ∷ []) (7 ∷ [])
      (omega arith) (omega arith) (omega arith, omega arith, tt) (omega arith, omega arith, tt)
      (omega arith) (omega arith)
      (
        (omega arith, omega arith),
        (λ e. ground arith),
        (
          (omega arith, omega arith),
          (λ e. ground arith),
          ((omega arith, omega arith), (λ e. ground arith), tt),
        ),
      )

helper_locs-endless_example : helper_locs 1000 (pos 5 ∷ []) file ≡ ends endless
helper_locs-endless_example = helper_locs-endless 1000 (pos 5 ∷ []) file refl
