-- ===== src/Fileutils/Search.antt =====
-- loader/fileutils.cpp: the elements of the search path, and the file that is found.
use oberon.Prelude.{
  ℕ, ◌≡◌, ◌≢◌, refl, ap, ◌∙◌, arith, false, Option, none, some, List, [], ◌∷◌, ◌++◌,
}
use oberon.Prelude.Tests.{◌==◌, if◌then◌else◌}
use oberon.Fileutils.{Files, search_elements, pathname, ends_in_slash, find_file_and_open}

-- Elements with ':' between them.
abbrev pub joined : List (List ℕ) → List ℕ
joined [] = []
joined (e ∷ []) = e
joined (e ∷ d ∷ es) = e ++ (0x3a ∷ joined (d ∷ es))

abbrev pub NoColon : List ℕ → Type 0
NoColon [] = Unit {0}
NoColon (c ∷ cs) = (c ≢ 0x3a) × NoColon cs

abbrev pub AllNoColon : List (List ℕ) → Type 0
AllNoColon [] = Unit {0}
AllNoColon (e ∷ es) = NoColon e × AllNoColon es

not_colon : (c : ℕ) → c ≢ 0x3a → (c == 0x3a) ≡ false
not_colon c h = ground arith

-- An element in front of a ':'.
element_first :
    (e rest : List ℕ) → NoColon e → search_elements (e ++ (0x3a ∷ rest)) ≡ e ∷ search_elements rest
unfolding search_elements
element_first [] rest h = refl
element_first (c ∷ cs) rest (h, hs) = rw (not_colon c h, element_first cs rest hs) refl

element_last : (e : List ℕ) → NoColon e → search_elements e ≡ e ∷ []
unfolding search_elements
element_last [] h = refl
element_last (c ∷ cs) (h, hs) = rw (not_colon c h, element_last cs hs) refl

-- The elements are read back from the path that joins them.
pub search_elements-joined :
    (e : List ℕ) (es : List (List ℕ))
    → NoColon e
    → AllNoColon es
    → search_elements (joined (e ∷ es)) ≡ e ∷ es
search_elements-joined e [] h hs = element_last e h
search_elements-joined e (d ∷ es) h (hd, hs) =
    element_first e (joined (d ∷ es)) h ∙ ap (λ r. e ∷ r) (search_elements-joined d es hd hs)

-- An element that is not empty, with one '/' before the name.
abbrev pub path_in : ℕ → List ℕ → List ℕ → List ℕ
path_in c cs s = if ends_in_slash c cs then (c ∷ cs) ++ s else (c ∷ cs) ++ (0x2f ∷ s)

-- Elements that are not empty, without the file.
abbrev pub Missing : Files → List ℕ → List (List ℕ) → Type 0
Missing files s [] = Unit {0}
Missing files s ([] ∷ es) = ⊥
Missing files s ((c ∷ cs) ∷ es) = (files (path_in c cs s) ≡ none) × Missing files s es

pathname_lem : (c : ℕ) (cs s : List ℕ) → pathname (c ∷ cs) s ≡ some (path_in c cs s)
unfolding pathname
pathname_lem c cs s = ground arith

first_found :
    (files : Files) (s : List ℕ) (before after : List (List ℕ)) (c : ℕ) (cs : List ℕ)
    {opened : Option (List ℕ)}
    → Missing files s before
    → files (path_in c cs s) ≡ some opened
    → find_file_and_open files (before ++ ((c ∷ cs) ∷ after)) s ≡ some opened
unfolding find_file_and_open
first_found files s [] after c cs missing found =
    rw (pathname_lem c cs s, found, find_file_and_open) refl
first_found files s ([] ∷ es) after c cs missing found = absurd missing
first_found files s ((d ∷ ds) ∷ es) after c cs (absent, missing) found =
    rw (pathname_lem d ds s, absent, find_file_and_open)
      (first_found files s es after c cs missing found)

elements_of : (es : List (List ℕ)) → es ≢ [] → AllNoColon es → search_elements (joined es) ≡ es
elements_of [] h hs = absurd (h refl)
elements_of (e ∷ es) h (he, hs) = search_elements-joined e es he hs

nonempty : (before after : List (List ℕ)) (e : List ℕ) → before ++ (e ∷ after) ≢ []
nonempty [] after e h = cc
nonempty (b ∷ bs) after e h = cc

-- In a search path of elements without a colon, written with colons between them, the search for a
-- name opens the file in the first element that has it, with one slash between them, where no
-- element before it is empty or has the file.
pub search_in_order :
    (files : Files) (s : List ℕ) (before after : List (List ℕ)) (c : ℕ) (cs : List ℕ)
    {opened : Option (List ℕ)}
    → AllNoColon (before ++ ((c ∷ cs) ∷ after))
    → Missing files s before
    → files (path_in c cs s) ≡ some opened
    → find_file_and_open files (search_elements (joined (before ++ ((c ∷ cs) ∷ after)))) s
      ≡ some opened
search_in_order files s before after c cs plain missing found =
    rw (elements_of (before ++ ((c ∷ cs) ∷ after)) (nonempty before after (c ∷ cs)) plain)
      (first_found files s before after c cs missing found)
