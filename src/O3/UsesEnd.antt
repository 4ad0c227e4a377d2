-- ===== src/O3/UsesEnd.antt =====
-- loader/o3.cpp: read_uses and the loop of read_helper_fixups over the locations of a helper end.
use oberon.Prelude.{
  ℕ, zero, suc, ◌+◌, ◌*◌, ◌≤◌, ◌<◌, ◌≢◌, refl, subst, arith, inl, inr, Bool, true, false, not, none,
  some, List, ◌||◌, bit_and,
}
use oberon.Prelude.Tests.{Bool-cases, ◌==◌, ltb, leb, if◌then◌else◌}
use oberon.Prelude.Int.{ℤ, pos, negsuc, pos_part}
use oberon.Prelude.Text.{length}
use oberon.Prelude.Word.{int32}
use oberon.Objio.{eq_ℤ, strdup}
use oberon.Machine.State.{undefined, M}
use oberon.Machine.State as Machine
use oberon.Machine.Memory.{Haddr, read_4_ze}
use oberon.Heap.{host_address, heap_address}
use oberon.Heap.Arrays.{strcpy, new_simple_elem_array, record_elem_array_len}
use oberon.O3.Input.{read_ch, read_num, read_str, name_len}
use oberon.O3.Layout.{
  field_at, ModuleField, imports, exports, ahead, element, stored, same_string, export_at, exp_name,
  exp_kind, exp_fprint, exp_pvfprint, sizeof_export_t,
}
use oberon.O3.Loader.{
  Loading, Loader, L, did, stops, unending, in_machine, pure, stop, bind, fatal, ◌>>=◌, ◌>>◌,
  on_machine, on_file, on_heap, TdName, td_refs, td_index, rounds_below,
}
use oberon.O3.Segments.{fixup_segment, fix_abs}
use oberon.O3.Allocations.{c_string, new_string, descriptor}
use oberon.O3.Blocks.{read_name, array_at}
use oberon.O3.Uses.{
  read_uses, uses_of, each_import, read_use, new_use, check_structure_fingerprint, check_export,
  helper_locations, file_fuel, plain_use, struc_bits, with_use,
}
use oberon.O3.Ends.{
  Within, Ends, Ends-bind, Ends-pure, Ends-if, Ends-on_machine, Ends-on_heap, Ends-on_file,
  Within-consumed, Ends-for_each, Consumes-Reads, Within-le,
}
use oberon.O3.Endings.{Consumes-read_ch, Consumes-read_num, Reads-read_str}

Ends-c_string : (s : List ℕ) → Ends (c_string s)
unfolding c_string
Ends-c_string s = Ends-if (ltb (length (strdup s)) name_len) _ _ (Ends-pure (strdup s)) (λ l. cc)

Ends-read_name : Ends read_name
Ends-read_name =
    Ends-bind (on_file read_str) _ (Ends-on_file read_str Reads-read_str) (λ raw. Ends-c_string raw)

Ends-descriptor : (f : TdName) → Ends (descriptor f)
Ends-descriptor f l = Ends-on_machine (host_address (l.td_adr (td_index f))) l

-- A function on the memory first.
Ends-then :
    {A B : Type 0} (f : M A) (k : A → L B) → ((a : A) → Ends (k a)) → Ends (on_machine f >>= k)
Ends-then f k later = Ends-bind (on_machine f) k (Ends-on_machine f) later

Ends-array_at : (m : ℕ) (f : ModuleField) → Ends (array_at m f)
Ends-array_at m f = Ends-then (field_at m f) _ (λ a. Ends-on_machine (host_address a))

Ends-copy :
    (n : Haddr) (s : List ℕ)
    → Ends (elim n as (λ x. L ℕ) [
      | none ↦ stop (in_machine undefined)
      | some p ↦ on_machine (strcpy p s) >> on_machine (heap_address (some p))
    ])
Ends-copy none s l = cc
Ends-copy (some p) s l = Ends-then (strcpy p s) _ (λ _. Ends-on_machine (heap_address (some p))) l

Ends-new_string : (s : List ℕ) → Ends (new_string s)
unfolding new_string
Ends-new_string s = Ends-then (Machine.assert (leb (length s + 1) name_len)) _ (λ _.
    Ends-bind (descriptor td_refs) _ (Ends-descriptor td_refs) (λ td.
      Ends-bind (on_heap (λ heap. new_simple_elem_array heap (length s + 1) 1 td)) _
        (Ends-on_heap (λ heap. new_simple_elem_array heap (length s + 1) 1 td))
        (λ n. Ends-copy n s)))

Ends-fatal : (A : Type 0) → Ends (fatal {A = A})
Ends-fatal A l = cc

Ends-check_export :
    (exps name : Haddr) (fp : ℤ) (priv : Bool) (i : ℕ) → Ends (check_export exps name fp priv i)
unfolding check_export
Ends-check_export exps name fp priv i = Ends-then (element exps sizeof_export_t (pos i)) _ (λ exp.
    Ends-then (export_at exp exp_name) _ (λ a. Ends-then (host_address a) _ (λ expname.
      Ends-then (same_string (stored name) expname) _ (λ same.
        Ends-if (not same) _ _ (Ends-pure tt) (
          Ends-then (export_at exp exp_kind) _ (λ kind.
            Ends-if (bit_and kind struc_bits == 0) _ _ (Ends-pure tt) (
              Ends-then (export_at exp (if priv then exp_pvfprint else exp_fprint)) _ (λ found.
                Ends-if (eq_ℤ (int32 found) fp) _ _ (Ends-pure tt) (Ends-fatal (Unit {0}))))))))))

Ends-check_structure_fingerprint :
    (imported name : Haddr) (fp : ℤ) (priv : Bool)
    → Ends (check_structure_fingerprint imported name fp priv)
unfolding check_structure_fingerprint
Ends-check_structure_fingerprint none name fp priv l = cc
Ends-check_structure_fingerprint (some q) name fp priv l =
    Ends-bind (array_at q exports) _ (Ends-array_at q exports)
      (λ hp. Ends-then (record_elem_array_len hp) _ (λ n_elem.
        Ends-for_each (rounds_below n_elem) 0 (check_export hp name fp priv)
          (Ends-check_export hp name fp priv)))
      l

Ends-entry :
    (b : Bool) (i name : ℕ) (fp : ℤ) (imported : ℕ) (host : Haddr)
    → Ends (
        if b
        then (λ l.
            did
              (i + 1)
              (with_use i (record { name = name; pbfprint = fp; umod = imported }) host l))
        else stop (in_machine undefined))
Ends-entry true i name fp imported host l = omega arith
Ends-entry false i name fp imported host l = cc

Ends-new_use : (i name : ℕ) (fp : ℤ) (imported : ℕ) → Ends (new_use i name fp imported)
unfolding new_use
Ends-new_use i name fp imported =
    Ends-then (Machine.assert (leb i 151)) _ (λ _.
      Ends-then (host_address name) _ (λ host. Ends-entry (ltb i 151) i name fp imported host))

Ends-read_use : (m mno tag i : ℕ) → Ends (read_use m mno tag i)
unfolding read_use
Ends-read_use m mno tag i = Ends-bind read_name _ Ends-read_name (λ n.
    Ends-bind (new_string n) _ (Ends-new_string n) (λ name.
      Ends-bind (on_file read_num) _
        (Ends-on_file read_num (Consumes-Reads read_num Consumes-read_num))
        (λ pbfprint. Ends-bind (array_at m imports) _ (Ends-array_at m imports) (λ imps.
          Ends-then (read_4_ze (ahead imps (mno * 4))) _ (λ imported.
            Ends-then (host_address imported) _ (λ host.
              Ends-if (plain_use tag) _ _ (Ends-new_use i name pbfprint imported) (
                Ends-if (tag == 6 || tag == 7) _ _
                  (Ends-then (host_address name) _ (λ hname.
                    Ends-bind (check_structure_fingerprint host hname pbfprint (tag == 7)) _
                      (Ends-check_structure_fingerprint host hname pbfprint (tag == 7))
                      (λ _. Ends-pure i)))
                  (Ends-fatal ℕ))))))))

-- What follows a function with few bytes left.
Within-then :
    {A B : Type 0} (n k : ℕ) (r : Loading A) (next : A → L B)
    → Within k r
    → ((a : A) (u : Loader) → length u.file.rest ≤ k → Within n (next a u))
    → Within n (bind r next)
Within-then n k (did a u) next few later = later a u few
Within-then n k (stops s) next few later = few

-- With fuel for each byte that is left.
uses_of-Within :
    (fuel m mno i : ℕ) (l : Loader)
    → length l.file.rest < fuel
    → Within (length l.file.rest) (uses_of fuel m mno i l)
unfolding uses_of
uses_of-Within zero m mno i l enough = absurd (omega arith)
uses_of-Within (suc fuel) m mno i l enough =
    Within-consumed read_ch _ (length l.file.rest) l Consumes-read_ch (omega arith) (λ tag t fewer.
      elim (Bool-cases (tag == 0)) [
        | inl e ↦ rw e (omega arith)
        | inr e ↦ rw e (
            Within-then (length l.file.rest) (length t.file.rest) (read_use m mno tag i t) _
              (Ends-read_use m mno tag i t)
              (λ i' u few.
                Within-le (length u.file.rest) (length l.file.rest) (uses_of fuel m mno i' u)
                  (omega arith) (uses_of-Within fuel m mno i' u (omega arith))))
      ])

each_import-Ends : (n m mno i : ℕ) → Ends (each_import n m mno i)
each_import-Ends zero m mno i l = omega arith
each_import-Ends (suc n) m mno i l =
    Ends-bind (λ t. uses_of (file_fuel t) m mno i t) _
      (λ t. uses_of-Within (file_fuel t) m mno i t (omega arith))
      (λ i'. each_import-Ends n m (mno + 1) i') l

Ends-fixup :
    (b : Bool) (m : ℕ) (offs : ℤ) (adr : ℕ)
    → Ends (if b then pure tt else on_machine (fixup_segment m (pos 0) fix_abs offs adr))
Ends-fixup true m offs adr l = omega arith
Ends-fixup false m offs adr l = Ends-on_machine (fixup_segment m (pos 0) fix_abs offs adr) l

helper_locations-Within :
    (fuel m adr : ℕ) (l : Loader)
    → length l.file.rest < fuel
    → Within (length l.file.rest) (helper_locations fuel m adr l)
unfolding helper_locations
helper_locations-Within zero m adr l enough = absurd (omega arith)
helper_locations-Within (suc fuel) m adr l enough =
    Within-consumed read_num _ (length l.file.rest) l Consumes-read_num (omega arith)
      (λ offs t fewer. elim (Bool-cases (eq_ℤ offs (negsuc 0))) [
        | inl e ↦ rw e (omega arith)
        | inr e ↦ rw e (
            Within-then (length l.file.rest) (length t.file.rest)
              ((if t.ignore_helper_fixups
                  then pure tt
                  else on_machine (fixup_segment m (pos 0) fix_abs offs adr))
                t)
              _ (Ends-fixup t.ignore_helper_fixups m offs adr t)
              (λ _ u few.
                Within-le (length u.file.rest) (length l.file.rest) (helper_locations fuel m adr u)
                  (omega arith) (helper_locations-Within fuel m adr u (omega arith))))
      ])

not_unending : {A : Type 0} (n : ℕ) (r : Loading A) → Within n r → r ≢ stops unending
not_unending n r within e = subst (Within n) e within refl

-- In every state and for every object file, read_uses and the loop over the locations of a helper
-- end before their fuel is used up, which is one round for each byte that is left in the file and
-- one more.
pub marked_loops_end :
    (m adr : ℕ) (n : ℤ) (l : Loader)
    → (read_uses m n l ≢ stops unending) × (helper_locations (file_fuel l) m adr l ≢ stops unending)
unfolding read_uses
marked_loops_end m adr n l = (
  not_unending (length l.file.rest) (each_import (pos_part n) m 0 0 l)
      (each_import-Ends (pos_part n) m 0 0 l),
  not_unending (length l.file.rest) (helper_locations (file_fuel l) m adr l)
      (helper_locations-Within (file_fuel l) m adr l (omega arith)),
)
