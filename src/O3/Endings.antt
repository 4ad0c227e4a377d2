-- ===== src/O3/Endings.antt =====
-- loader/o3.cpp: the loops of read_uses and read_helper_fixups, which end at a mark in the object file.
use oberon.Prelude.{
  ℕ, zero, suc, ◌+◌, ◌-◌, ◌<◌, arith, Bool, true, false, Option, none, some, List, [], ◌∷◌, inl,
  inr,
}
use oberon.Prelude.Tests.{Bool-cases, ltb, leb, if◌then◌else◌}
use oberon.Prelude.Int.{ℤ, pos, pos_part, ltb_ℤ, ◌+ℤ◌}
use oberon.Prelude.Text.{length}
use oberon.Prelude.Word.{uint8, int32, pattern32}
use oberon.Objio.{
  Reader, Reading, ObjFile, got, ends, with_rest, shift_left, last_group, lookup, undefined,
}
use oberon.Objio as Objio
use oberon.O3.Input.{
  read_ch, read_num, num_bytes, last_byte, read_str, find_str, read_raw_str, read_chs,
  new_object_module_str, copied, name_len, opposite,
}
use oberon.O3.Ends.{Fewer, AtMost, Reads, Consumes, Reads-bind, Consumes-Reads}

pub Consumes-read_ch : Consumes read_ch
unfolding read_ch
Consumes-read_ch f = rest f.rest
  where
    rest :
        (cs : List ℕ)
        → Fewer (length cs) (elim cs as (λ x. Reading ℕ) [
          | [] ↦ ends Objio.not_implemented
          | c ∷ cs ↦ got (uint8 c) (with_rest cs f)
        ])
    rest [] = tt
    rest (c ∷ cs) = omega arith

last_byte-Fewer :
    (y : ℤ) (n ch : ℕ) (f : ObjFile) (k : ℕ) → length f.rest < k → Fewer k (last_byte y n ch f)
unfolding last_byte
last_byte-Fewer y n ch f k less = result (last_group ch n)
  where
    result :
        (o : Option ℤ)
        → Fewer k
            (Objio.◌>>=◌ (Objio.defined o) (λ high. Objio.pure (int32 (pattern32 (high +ℤ y)))) f)
    result none = tt
    result (some high) = less

num_bytes-Fewer :
    (cs : List ℕ) (y : ℤ) (n : ℕ) (f : ObjFile) → Fewer (length cs) (num_bytes cs y n f)
unfolding num_bytes
num_bytes-Fewer [] y n f = tt
num_bytes-Fewer (c ∷ cs) y n f = elim (Bool-cases (leb 0x80 (uint8 c))) [
  | inl more ↦
      rw more
        (rest (shift_left (pos (uint8 c - 128)) n) (λ s. num_bytes-Fewer cs (y +ℤ s) (n + 7) f))
  | inr last ↦
      rw last (last_byte-Fewer y n (uint8 c) (with_rest cs f) (suc (length cs)) (omega arith))
]
  where
    weak : (r : Reading ℤ) → Fewer (length cs) r → Fewer (suc (length cs)) r
    weak (got a g) less = omega arith
    weak (ends e) less = tt

    rest :
        (o : Option ℤ)
        → ((s : ℤ) → Fewer (length cs) (num_bytes cs (y +ℤ s) (n + 7) f))
        → Fewer
            (suc (length cs))
            (Objio.◌>>=◌ (Objio.defined o) (λ s. num_bytes cs (y +ℤ s) (n + 7)) f)
    rest none later = tt
    rest (some s) later = weak (num_bytes cs (y +ℤ s) (n + 7) f) (later s)

pub Consumes-read_num : Consumes read_num
unfolding read_num
Consumes-read_num f = num_bytes-Fewer f.rest (pos 0) 0 f

Reads-assert : (b : Bool) → Reads (Objio.assert b)
Reads-assert b f = ground arith

Reads-read_chs : (n : ℕ) → Reads (read_chs n)
Reads-read_chs zero f = omega arith
Reads-read_chs (suc n) f =
    Reads-bind read_ch (λ c. Objio.◌>>=◌ (read_chs n) (λ cs. Objio.pure (c ∷ cs)))
      (Consumes-Reads read_ch Consumes-read_ch)
      (λ c.
        Reads-bind (read_chs n) (λ cs. Objio.pure (c ∷ cs)) (Reads-read_chs n)
          (λ cs g. omega arith))
      f

Reads-find_str : (i : ℤ) → Reads (find_str i)
unfolding find_str
Reads-find_str i f = found (lookup f.strings (opposite i))
  where
    found :
        (o : Option (List ℕ))
        → AtMost (length f.rest) (elim o as (λ x. Reading (List ℕ)) [
          | none ↦ Objio.◌>>◌ (Objio.assert false) (Objio.stop undefined) f
          | some s ↦ got (copied (name_len - 1) s) f
        ])
    found none =
        Reads-bind (Objio.assert false) (λ _. Objio.stop undefined) (Reads-assert false) (λ _ g. tt)
          f
    found (some s) = omega arith

Reads-read_raw_str : Reads read_raw_str
unfolding read_raw_str
Reads-read_raw_str = Reads-bind read_num _ (Consumes-Reads read_num Consumes-read_num) (λ len.
    Reads-bind (Objio.assert (ltb_ℤ len (pos name_len))) _ (Reads-assert _)
      (λ _. long (ltb name_len (pos_part len)) (pos_part len)))
  where
    long : (b : Bool) (n : ℕ) → Reads (if b then Objio.stop undefined else read_chs n)
    long true n f = tt
    long false n f = Reads-read_chs n f

pub Reads-read_str : Reads read_str
unfolding read_str
Reads-read_str =
    Reads-bind read_num _ (Consumes-Reads read_num Consumes-read_num)
      (λ index. old (ltb_ℤ index (pos 0)) index)
  where
    old :
        (b : Bool) (index : ℤ)
        → Reads (
            if b
            then find_str index
            else Objio.◌>>=◌ read_raw_str
                (λ x. Objio.◌>>◌ (new_object_module_str index x) (Objio.pure x)))
    old true index = Reads-find_str index
    old false index = Reads-bind read_raw_str _ Reads-read_raw_str (λ x f. omega arith)
