-- ===== src/Objio/TypeDescs.antt =====
-- disasm/objio.cpp: the type descriptors of an object file.
use oberon.Prelude.{ℕ, false, ◌||◌, Option, none, some, List, []}
use oberon.Prelude.Tests.{◌==◌, ltb, leb, if◌then◌else◌}
use oberon.Prelude.Int.{ℤ, pos, negsuc, pos_part}
use oberon.Objio.{
  Reader, undefined, pure, stop, assert, ◌>>=◌, ◌>>◌, read_char, read_tag, read_num, read_string,
  with_rest, eq_ℤ,
}
use oberon.Objio.Symbols.{Header, in_order, in_front}

-- A name and a fingerprint of 0, or no name and a number. `backup(1)` gives the byte back that was read.
unfoldable pub name_num : Reader (Option (List ℕ) × ℤ)
name_num f =
    (do
      ch ← read_char
      if ch == 0
          then (do num ← read_num; pure (none, num))
          else (λ g. (do name ← read_string; pure (some name, pos 0)) (with_rest f.rest g)))
      f

-- rectd_t.
pub record Rectd : Type 0 where
  pub recsize : ℤ
  pub basemod : ℤ
  pub ancestor : Option (List ℕ × ℤ)
  pub n_meth : ℤ
  pub n_inhmeth : ℤ
  pub n_newmeth : ℤ
  pub n_ptr : ℤ
  pub methinfo : List (ℤ × ℤ)
  pub ptroffs : List ℤ

-- The loops run from the count down to 1, so the count is an index of the arrays.
abbrev pub max_methinfo : ℕ
max_methinfo = 128

abbrev pub max_ptroffs : ℕ
max_ptroffs = 512

abbrev pub checked_count : {A : Type 0} → ℤ → ℕ → Reader A → Reader (List A)
checked_count n limit item =
    if ltb (pos_part n) limit then in_order (pos_part n) item else stop undefined

unfoldable pub typedesc_record : Reader Rectd
unfolding name_num
typedesc_record = do
  (name, fprint) ← name_num
  recsize ← read_num
  basemod ← read_num
  ancestor ←
      if eq_ℤ basemod (negsuc 0)
      then pure none
      else (do name ← read_string; fp ← read_num; pure (some (name, fp)))
  n_meth ← read_num
  n_inhmeth ← read_num
  n_newmeth ← read_num
  n_ptr ← read_num
  methinfo ←
      checked_count n_newmeth max_methinfo
        (do methno ← read_num; entry ← read_num; pure (methno, entry))
  ptroffs ← checked_count n_ptr max_ptroffs read_num
  pure (record {
    recsize = recsize;
    basemod = basemod;
    ancestor = ancestor;
    n_meth = n_meth;
    n_inhmeth = n_inhmeth;
    n_newmeth = n_newmeth;
    n_ptr = n_ptr;
    methinfo = methinfo;
    ptroffs = ptroffs;
  })

-- A module number, a name and a fingerprint.
pub record RecordName : Type 0 where
  pub mno : ℤ
  pub rectdname : List ℕ
  pub fprint : ℤ

unfoldable pub record_name : Reader RecordName
record_name = do
  mno ← read_num
  rectdname ← read_string
  fprint ← read_num
  pure (record { mno = mno; rectdname = rectdname; fprint = fprint })

-- What the element of an array is: a form, a record, or one of them below static dimensions.
pub data Element : Type 0 where
  unknown : Element
  of_form : ℤ → Element
  of_record : RecordName → Element
  of_array : Element → List ℤ → Element

abbrev pub max_dim : ℕ
max_dim = 32

-- `for (i = 0; i < n; ++i)` into an array of 32 elements.
abbrev pub dimensions : Reader (List ℤ)
dimensions = do
  n ← read_num
  if leb (pos_part n) max_dim then in_order (pos_part n) read_num else stop undefined

unfoldable pub array_element : Reader Element
unfolding record_name
array_element = do
  element_tag ← read_char
  assert (element_tag == 0 || element_tag == 1 || element_tag == 2)
  element ←
      if element_tag == 0 || element_tag == 1
      then (do form ← read_num; pure (of_form form))
      else (do assert (element_tag == 2); r ← record_name; pure (of_record r))
  static_dim ← dimensions
  pure (of_array element static_dim)

-- darrtd_t.
pub record Darrtd : Type 0 where
  pub form : ℕ
  pub n_dim : ℤ
  pub element : Element

unfoldable pub typedesc_darray : Reader Darrtd
unfolding record_name array_element
typedesc_darray = do
  name ← read_string
  fprint ← read_num
  tag ← read_char
  n_dim ← read_num
  element ←
      if tag == 1 || tag == 2
      then (do form ← read_num; pure (of_form form))
      else if tag == 3
      then (do r ← record_name; pure (of_record r))
      else if tag == 4
      then array_element
      else pure unknown
  pure (record { form = tag; n_dim = n_dim; element = element })

-- arrtd_t.
pub record Arrtd : Type 0 where
  pub tag : ℕ
  pub element : Element
  pub dim : List ℤ

unfoldable pub typedesc_array : Reader Arrtd
unfolding record_name
typedesc_array = do
  name ← read_string
  fprint ← read_num
  tag ← read_char
  element ←
      if tag == 1 || tag == 2
      then (do form ← read_num; pure (of_form form))
      else if tag == 3
      then (do r ← record_name; pure (of_record r))
      else (do assert false; pure unknown)
  dim ← dimensions
  pure (record { tag = tag; element = element; dim = dim })

pub data TypeDesc : Type 0 where
  t_rec : Rectd → TypeDesc
  t_darray : Darrtd → TypeDesc
  t_array : Arrtd → TypeDesc
  t_unknown : ℕ → TypeDesc

-- A round of the loop of typedesc_block. A tag of no kind fails an assertion where it is compiled.
unfoldable pub read_typedesc : Reader TypeDesc
unfolding typedesc_record typedesc_darray typedesc_array
read_typedesc = do
  tag ← read_char
  if tag == 1
      then (do r ← typedesc_record; pure (t_rec r))
      else if tag == 2
      then (do r ← typedesc_darray; pure (t_darray r))
      else if tag == 3
      then (do r ← typedesc_array; pure (t_array r))
      else (do assert false; pure (t_unknown tag))

unfoldable pub typedesc_block : Header → Reader (List TypeDesc)
unfolding read_typedesc
typedesc_block h = do read_tag 0x84; in_front (pos_part h.n_desc) read_typedesc []
