-- ===== src/O3/Header.antt =====
-- loader/o3.cpp: the beginning of an object file, as the loader of modules reads it.
use oberon.Prelude.{ℕ, ◌&&◌, List}
use oberon.Prelude.Tests.{if◌then◌else◌}
use oberon.Prelude.Int.{ℤ}
use oberon.Prelude.Word.{int32}
use oberon.Objio.{Reader, pure, stop, fatal, ◌>>=◌, ◌>>◌, eq_ℤ}
use oberon.O3.Input.{read_tag, read_lint, read_str}

-- OFtag and OFtarget.
abbrev pub of_tag : ℤ
of_tag = int32 0xf8320000

abbrev pub of_target : ℤ
of_target = int32 0x11161967

unfoldable pub read_magic_block : Reader (Unit {0})
read_magic_block = do
  version ← read_lint
  targ ← read_lint
  if eq_ℤ version of_tag && eq_ℤ targ of_target then pure tt else stop fatal

-- objf_header_t.
pub record ObjfHeader : Type 0 where
  pub ref_size : ℤ
  pub n_exports : ℤ
  pub nof_prv : ℤ
  pub nof_desc : ℤ
  pub nof_com : ℤ
  pub nof_ptr : ℤ
  pub nof_helpers : ℤ
  pub n_fixups : ℤ
  pub code_size : ℤ
  pub data_size : ℤ
  pub const_size : ℤ
  pub typedesc_size : ℤ
  pub case_size : ℤ
  pub export_size : ℤ
  pub nof_imports : ℤ
  pub name : List ℕ

unfoldable pub read_header : Reader ObjfHeader
read_header = do
  read_tag 0x80
  ref_size ← read_lint
  n_exports ← read_lint
  nof_prv ← read_lint
  nof_desc ← read_lint
  nof_com ← read_lint
  nof_ptr ← read_lint
  nof_helpers ← read_lint
  n_fixups ← read_lint
  code_size ← read_lint
  data_size ← read_lint
  const_size ← read_lint
  typedesc_size ← read_lint
  case_size ← read_lint
  export_size ← read_lint
  nof_imports ← read_lint
  name ← read_str
  pure (record {
    ref_size = ref_size;
    n_exports = n_exports;
    nof_prv = nof_prv;
    nof_desc = nof_desc;
    nof_com = nof_com;
    nof_ptr = nof_ptr;
    nof_helpers = nof_helpers;
    n_fixups = n_fixups;
    code_size = code_size;
    data_size = data_size;
    const_size = const_size;
    typedesc_size = typedesc_size;
    case_size = case_size;
    export_size = export_size;
    nof_imports = nof_imports;
    name = name;
  })
