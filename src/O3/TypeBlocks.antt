-- ===== src/O3/TypeBlocks.antt =====
-- loader/o3.cpp: the block of type descriptors, which the loader reads and forgets.
use oberon.Prelude.{ℕ, zero, suc, Bool, ◌||◌, List, [], ◌∷◌}
use oberon.Prelude.Tests.{◌==◌, if◌then◌else◌}
use oberon.Prelude.Int.{ℤ, pos, negsuc, pos_part}
use oberon.Objio.{Reader, pure, stop, fatal, ◌>>=◌, ◌>>◌, assert, eq_ℤ}
use oberon.O3.Input.{read_ch, read_num, read_str}

abbrev pub skip : ℕ → Reader (Unit {0}) → Reader (Unit {0})
skip zero item = pure tt
skip (suc n) item = item >> skip n item

abbrev pub skip_num : Reader (Unit {0})
skip_num = do n ← read_num; pure tt

abbrev pub skip_str : Reader (Unit {0})
skip_str = do s ← read_str; pure tt

-- `s[0] == '\0'`.
abbrev pub is_empty : List ℕ → Bool
is_empty [] = Bool.true
is_empty (c ∷ cs) = c == 0

unfoldable pub rec_td : Reader (Unit {0})
rec_td = do
  r_name ← read_str
  if is_empty r_name then skip_num else pure tt
  r_size ← read_num
  r_anc_mno ← read_num
  if eq_ℤ r_anc_mno (negsuc 0) then pure tt else skip_str >> skip_num
  rnofmeth ← read_num
  rnofinhmeth ← read_num
  rnofnewmeth ← read_num
  rnofptr ← read_num
  assert (eq_ℤ rnofmeth (pos 0))
  skip (pos_part rnofnewmeth) (skip_num >> skip_num)
  skip (pos_part rnofptr) skip_num

-- A module number, the name of a record and its fingerprint.
abbrev pub skip_record : Reader (Unit {0})
skip_record = do skip_num; skip_str; skip_num

unfoldable pub dynarr_td : Reader (Unit {0})
dynarr_td = do
  skip_str
  skip_num
  a_tag ← read_ch
  if a_tag == 1 || a_tag == 2
      then skip_num >> skip_num
      else if a_tag == 3
      then skip_num >> skip_record
      else stop fatal

unfoldable pub array_td : Reader (Unit {0})
array_td = do
  skip_str
  skip_num
  a_tag ← read_ch
  if a_tag == 1 || a_tag == 2 then skip_num else if a_tag == 3 then skip_record else stop fatal
  a_nof_dim ← read_num
  skip (pos_part a_nof_dim) skip_num

unfoldable pub read_typedescriptor : Reader (Unit {0})
unfolding rec_td dynarr_td array_td
read_typedescriptor = do
  ch ← read_ch
  if ch == 1
      then rec_td
      else if ch == 2
      then dynarr_td
      else if ch == 3
      then array_td
      else stop fatal

unfoldable pub read_typedescriptors : ℤ → Reader (Unit {0})
unfolding read_typedescriptor
read_typedescriptors n = skip (pos_part n) read_typedescriptor
