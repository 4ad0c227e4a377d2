-- ===== src/Objio/Symbols.antt =====
-- disasm/objio.cpp: the header, the imports and the symbols of an object file.
use oberon.Prelude.{ℕ, zero, suc, Bool, ◌||◌, ◌&&◌, Option, none, some, List, [], ◌∷◌}
use oberon.Prelude.Tests.{◌==◌, ltb, leb, if◌then◌else◌}
use oberon.Prelude.Int.{ℤ, pos_part}
use oberon.Prelude.Word.{int32}
use oberon.Objio.{
  eq_ℤ, Reader, exits, undefined, pure, stop, ◌>>=◌, ◌>>◌, read_char, read_lint, read_tag, read_num,
  read_string,
}

pub data FileMode : Type 0 where
  fm_x86 fm_skl : FileMode

-- `open`, once the file is open: either word is enough to tell the mode.
unfoldable pub open_file : Reader FileMode
open_file = do
  tag ← read_lint
  version ← read_lint
  if eq_ℤ tag (int32 0xf8310000) || eq_ℤ version (int32 0x15100151)
      then pure fm_x86
      else if eq_ℤ tag (int32 0xf8320000) || eq_ℤ version (int32 0x11161967)
      then pure fm_skl
      else stop exits

-- The fields of objfile_t that the header gives.
pub record Header : Type 0 where
  pub refsize : ℤ
  pub n_exp : ℤ
  pub n_prv : ℤ
  pub n_desc : ℤ
  pub n_com : ℤ
  pub n_ptr : ℤ
  pub n_helpers : ℤ
  pub n_fixups : ℤ
  pub pc : ℤ
  pub dsize : ℤ
  pub constx : ℤ
  pub typedescx : ℤ
  pub casex : ℤ
  pub exportx : ℤ
  pub n_imports : ℤ
  pub module_name : List ℕ

unfoldable pub header_block : Reader Header
header_block = do
  read_tag 0x80
  refsize ← read_lint
  n_exp ← read_lint
  n_prv ← read_lint
  n_desc ← read_lint
  n_com ← read_lint
  n_ptr ← read_lint
  n_helpers ← read_lint
  n_fixups ← read_lint
  pc ← read_lint
  dsize ← read_lint
  constx ← read_lint
  typedescx ← read_lint
  casex ← read_lint
  exportx ← read_lint
  n_imports ← read_lint
  module_name ← read_string
  pure (record {
    refsize = refsize;
    n_exp = n_exp;
    n_prv = n_prv;
    n_desc = n_desc;
    n_com = n_com;
    n_ptr = n_ptr;
    n_helpers = n_helpers;
    n_fixups = n_fixups;
    pc = pc;
    dsize = dsize;
    constx = constx;
    typedescx = typedescx;
    casex = casex;
    exportx = exportx;
    n_imports = n_imports;
    module_name = module_name;
  })

-- `for (i = 0; i < n; ++i)` over results that are kept in order.
abbrev pub in_order : {A : Type 0} → ℕ → Reader A → Reader (List A)
in_order zero item = pure []
in_order (suc n) item = do x ← item; xs ← in_order n item; pure (x ∷ xs)

-- The same over results that are linked in front of a list.
abbrev pub in_front : {A : Type 0} → ℕ → Reader A → List A → Reader (List A)
in_front zero item xs = pure xs
in_front (suc n) item xs = item >>= λ x. in_front n item (x ∷ xs)

abbrev pub max_imports : ℕ
max_imports = 31

-- imports[0 .. n_imports]; the array has `max_imports` elements.
unfoldable pub import_block : Header → Reader (List (List ℕ))
import_block h = do
  read_tag 0x81
  if ltb (pos_part h.n_imports) max_imports
      then (do names ← in_order (pos_part h.n_imports) read_string; pure (h.module_name ∷ names))
      else stop undefined

-- symbol_info_desc_t as exports and privates use it.
pub record SymbolInfo : Type 0 where
  pub kind : ℕ
  pub name : List ℕ
  pub fprint : ℤ
  pub spvfprint : Option ℤ

abbrev pub e_struc : ℕ
e_struc = 6

-- The labels of the switch: 1 to 6 and 8 to 10.
abbrev pub is_symbol_kind : ℕ → Bool
is_symbol_kind tag = leb 1 tag && leb tag 6 || leb 8 tag && leb tag 10

unfoldable pub read_symbol : Reader SymbolInfo
read_symbol = do
  tag ← read_char
  if is_symbol_kind tag
      then (do
        name ← read_string
        fprint ← read_num
        spvfprint ← if tag == e_struc then (do v ← read_num; pure (some v)) else pure none
        pure (record { kind = tag; name = name; fprint = fprint; spvfprint = spvfprint }))
      else stop exits

unfoldable pub read_symbol_info : ℤ → Reader (List SymbolInfo)
unfolding read_symbol
read_symbol_info n_symbols = in_front (pos_part n_symbols) read_symbol []

unfoldable pub export_block : Header → Reader (List SymbolInfo)
unfolding read_symbol_info
export_block h = do read_tag 0x82; read_symbol_info h.n_exp

unfoldable pub private_block : Header → Reader (List SymbolInfo)
unfolding read_symbol_info
private_block h = do read_tag 0x83; read_symbol_info h.n_prv
