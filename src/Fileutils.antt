-- ===== src/Fileutils.antt =====
-- loader/fileutils.cpp: the search for a file. The host's files are a parameter.
pub mod Search
use oberon.Prelude.{ℕ, Option, none, some, List, [], ◌∷◌, ◌++◌, Bool}
use oberon.Prelude.Tests.{◌==◌, if◌then◌else◌}

-- The files of the host: `none` where `stat` fails, `some none` where only `fopen` fails.
abbrev pub Files : Type 0
Files = List ℕ → Option (Option (List ℕ))

-- SKL_SEARCH_PATH, cut at each ':'.
unfoldable pub search_elements : List ℕ → List (List ℕ)
search_elements [] = [] ∷ []
search_elements (c ∷ cs) =
    let rest = search_elements cs in
    if c == 0x3a then [] ∷ rest else elim rest [ [] ↦ [] | e ∷ es ↦ (c ∷ e) ∷ es ]

abbrev pub ends_in_slash : ℕ → List ℕ → Bool
ends_in_slash c [] = c == 0x2f
ends_in_slash c (d ∷ ds) = ends_in_slash d ds

-- The last byte of an empty element is read before its beginning, which is undefined.
unfoldable pub pathname : List ℕ → List ℕ → Option (List ℕ)
pathname [] s = none
pathname (c ∷ cs) s =
    if ends_in_slash c cs then some ((c ∷ cs) ++ s) else some ((c ∷ cs) ++ (0x2f ∷ s))

-- The first file that `stat` finds; `none` where the code is undefined.
unfoldable pub find_file_and_open : Files → List (List ℕ) → List ℕ → Option (Option (List ℕ))
unfolding pathname
find_file_and_open files [] s = some none
find_file_and_open files (elem ∷ elems) s =
    let rest = find_file_and_open files elems s in
    elim (pathname elem s) [
      | none ↦ none
      | some path ↦ elim (files path) [ none ↦ rest | some fp ↦ some fp ]
    ]
