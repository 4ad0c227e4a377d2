-- ===== src/Objio/Uses.antt =====
-- disasm/objio.cpp: uses of imported symbols, helpers and references of an object file, and the whole
-- file. A loop that ends at a tag takes fuel: each round but the last reads a byte of the file.
use oberon.Prelude.{ℕ, zero, suc, ◌||◌, ◌&&◌, Option, none, some, List, [], ◌∷◌}
use oberon.Prelude.Tests.{◌==◌, leb, if◌then◌else◌}
use oberon.Prelude.Int.{ℤ, pos, negsuc, pos_part}
use oberon.Prelude.Text.{length}
use oberon.Objio.{
  Reader, ObjFile, endless, pure, stop, ◌>>=◌, ◌>>◌, read_char, read_tag, read_num, read_string,
  read_raw_string, eq_ℤ,
}
use oberon.Objio.Symbols.{
  Header, SymbolInfo, in_front, header_block, import_block, export_block, private_block,
}
use oberon.Objio.TypeDescs.{TypeDesc, typedesc_block}
use oberon.Objio.Fixups.{
  HelperDesc, FixupDesc, command_block, pointer_block, constant_block, typedescdata_block,
  code_block, fixup_block,
}

-- Two rounds more than the bytes that are left.
abbrev pub tag_fuel : ObjFile → ℕ
tag_fuel f = suc (suc (length f.rest))

-- use_info_desc_t. Only a tag from 1 to 10 has a name.
pub record UseInfo : Type 0 where
  pub kind : ℕ
  pub mno : ℕ
  pub name : Option (List ℕ)
  pub fprint : ℤ
  pub type_name : Option (List ℕ)

-- The name and the fingerprint of a use.
abbrev pub use_name : ℕ → Reader (Option (List ℕ) × ℤ)
use_name tag =
    if leb 1 tag && leb tag 10
    then (do s ← read_string; fp ← read_num; pure (some s, fp))
    else pure (none, pos 0)

-- A use and the tag after it. The fingerprint of a type replaces that of the use.
unfoldable pub read_use : ℕ → ℕ → Reader (UseInfo × ℕ)
read_use mno tag = do
  (name, fprint) ← use_name tag
  after ← read_char
  if after == 6 || after == 7
      then (do
        type_name ← read_string
        type_fprint ← read_num
        next ← read_char
        pure (
          record {
            kind = tag;
            mno = mno;
            name = name;
            fprint = type_fprint;
            type_name = some type_name;
          },
          next,
        ))
      else pure
          (record { kind = tag; mno = mno; name = name; fprint = fprint; type_name = none }, after)

-- The uses of a module, up to the tag 0.
unfoldable pub uses_from : ℕ → ℕ → ℕ → List UseInfo → Reader (List UseInfo)
unfolding read_use
uses_from zero mno tag uses = stop endless
uses_from (suc fuel) mno tag uses =
    let rest = read_use mno tag >>= λ (u, next). uses_from fuel mno next (u ∷ uses) in
    if tag == 0 then pure uses else rest

abbrev pub uses_of_imports : ℕ → ℕ → List UseInfo → Reader (List UseInfo)
uses_of_imports zero mno uses = pure uses
uses_of_imports (suc n) mno uses = do
  tag ← read_char
  more ← λ f. uses_from (tag_fuel f) mno tag uses f
  uses_of_imports n (suc mno) more

unfoldable pub uses_block : Header → Reader (List UseInfo)
unfolding uses_from
uses_block h = do read_tag 0x8a; uses_of_imports (pos_part h.n_imports) 1 []

-- The locations of a helper, the last first, up to -1. At the end of the file the loop goes on.
unfoldable pub helper_locs : ℕ → List ℤ → Reader (List ℤ)
helper_locs zero locs = stop endless
helper_locs (suc fuel) locs = do
  offs ← read_num
  let rest = helper_locs fuel (offs ∷ locs)
  if eq_ℤ offs (negsuc 0) then pure locs else rest

unfoldable pub read_helper_desc : Reader HelperDesc
unfolding helper_locs
read_helper_desc = do
  name ← read_string
  func ← read_string
  locs ← λ f. helper_locs (tag_fuel f) [] f
  pure (record { module_name = name; func = func; locs = locs })

unfoldable pub helper_fixup_block : Header → Reader (List HelperDesc)
unfolding read_helper_desc
helper_fixup_block h = do read_tag 0x8b; in_front (pos_part h.n_helpers) read_helper_desc []

-- reference_info_kind_t.
pub data ReferenceInfoKind : Type 0 where
  ri_proc ri_var ri_par ri_varpar ri_darrtd ri_arrtd ri_rectd : ReferenceInfoKind

-- ri_var is what the constructor gives.
abbrev pub local_kind : ℕ → ReferenceInfoKind
local_kind tag =
    if tag == 2
    then ri_par
    else if tag == 3
    then ri_varpar
    else if tag == 16
    then ri_darrtd
    else if tag == 17
    then ri_arrtd
    else if tag == 18
    then ri_rectd
    else ri_var

-- reference_info_desc_t of a local symbol, and of a procedure.
pub record LocalInfo : Type 0 where
  pub kind : ReferenceInfoKind
  pub form : ℕ
  pub adr : ℤ
  pub name : List ℕ

pub record ReferenceInfo : Type 0 where
  pub adr : ℤ
  pub len : ℤ
  pub name : List ℕ
  pub locals : List LocalInfo

unfoldable pub read_local : ℕ → Reader (LocalInfo × ℕ)
read_local tag = do
  form ← read_char
  adr ← read_num
  name ← read_raw_string
  next ← read_char
  pure (record { kind = local_kind tag; form = form; adr = adr; name = name }, next)

-- The local symbols, the last first, up to the tag of a procedure or 0, and that tag.
unfoldable pub locals_from : ℕ → ℕ → List LocalInfo → Reader (List LocalInfo × ℕ)
unfolding read_local
locals_from zero tag locals = stop endless
locals_from (suc fuel) tag locals =
    let rest = read_local tag >>= λ (x, next). locals_from fuel next (x ∷ locals) in
    if tag == 0x97 || tag == 0 then pure (locals, tag) else rest

unfoldable pub read_procedure : Reader (ReferenceInfo × ℕ)
unfolding locals_from
read_procedure = do
  adr ← read_num
  len ← read_num
  name ← read_raw_string
  tag ← read_char
  (locals, next) ← λ f. locals_from (tag_fuel f) tag [] f
  pure (record { adr = adr; len = len; name = name; locals = locals }, next)

-- The procedures, the last first.
unfoldable pub procedures_from : ℕ → ℕ → List ReferenceInfo → Reader (List ReferenceInfo)
unfolding read_procedure
procedures_from zero tag procs = stop endless
procedures_from (suc fuel) tag procs =
    let rest = read_procedure >>= λ (x, next). procedures_from fuel next (x ∷ procs) in
    if tag == 0x97 then rest else pure procs

unfoldable pub reference_block : Reader (List ReferenceInfo)
unfolding procedures_from
reference_block = do read_tag 0x8d; tag ← read_char; λ f. procedures_from (tag_fuel f) tag [] f

-- The lists and arrays of objfile_t.
pub record ObjInfo : Type 0 where
  pub header : Header
  pub imports : List (List ℕ)
  pub exports : List SymbolInfo
  pub privates : List SymbolInfo
  pub typedesc : List TypeDesc
  pub command : List (List ℕ)
  pub pointers : List ℤ
  pub constants : List ℕ
  pub typedescs : List ℕ
  pub code : List ℕ
  pub uses : List UseInfo
  pub helper : List HelperDesc
  pub fixup : List FixupDesc
  pub refinfo : List ReferenceInfo

unfoldable pub read : Reader ObjInfo
unfolding uses_block helper_fixup_block reference_block
read = do
  h ← header_block
  imports ← import_block h
  exports ← export_block h
  privates ← private_block h
  typedesc ← typedesc_block h
  command ← command_block h
  pointers ← pointer_block h
  constants ← constant_block h
  typedescs ← typedescdata_block h
  code ← code_block h
  uses ← uses_block h
  helper ← helper_fixup_block h
  fixup ← fixup_block h
  refinfo ← reference_block
  pure (record {
    header = h;
    imports = imports;
    exports = exports;
    privates = privates;
    typedesc = typedesc;
    command = command;
    pointers = pointers;
    constants = constants;
    typedescs = typedescs;
    code = code;
    uses = uses;
    helper = helper;
    fixup = fixup;
    refinfo = refinfo;
  })
