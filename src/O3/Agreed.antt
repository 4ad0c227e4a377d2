-- ===== src/O3/Agreed.antt =====
-- loader/o3.cpp and disasm/objio.cpp: the two readers of numbers agree.
use oberon.Prelude.{
  ℕ, ◌+◌, ◌-◌, ◌≡◌, refl, subst, List, [], ◌∷◌, Bool, true, false, Option, none, some, inl, inr,
  not, ◌||◌,
}
use oberon.Prelude.Tests.{leb, Bool-cases, if◌then◌else◌}
use oberon.Prelude.Int.{ℤ, pos, ◌+ℤ◌, ltb_ℤ}
use oberon.Prelude.Word.{uint8, int32, pattern32}
use oberon.Machine.State.{release}
use oberon.Objio.{
  ObjFile, Reading, got, ends, with_rest, shift_left, last_group, defined, assert, ◌>>=◌, ◌>>◌,
  pure,
}
use oberon.Objio as Objio
use oberon.O3.Input

-- A number ends in the file.
abbrev pub IsComplete : List ℕ → Type 0
IsComplete [] = ⊥
IsComplete (c ∷ cs) = if leb 0x80 (uint8 c) then IsComplete cs else Unit {0}

passes : (b : Bool) (f : ObjFile) → f.build ≡ release → assert b f ≡ got tt f
passes true f e = refl
passes false f e = rw e refl

last_byte_agrees :
    (y : ℤ) (n ch : ℕ) (f : ObjFile)
    → f.build ≡ release
    → Objio.last_byte y n ch f ≡ Input.last_byte y n ch f
unfolding Objio.last_byte Input.last_byte
last_byte_agrees y n ch f e = agrees (last_group ch n)
  where
    agrees :
        (o : Option ℤ)
        → (defined o >>= λ high.
              (assert (
                  not (
                    ltb_ℤ (int32 (pattern32 (high +ℤ y))) (high +ℤ y)
                    || ltb_ℤ (high +ℤ y) (int32 (pattern32 (high +ℤ y)))))
                >> pure (int32 (pattern32 (high +ℤ y)))))
            f
          ≡ (defined o >>= λ high. pure (int32 (pattern32 (high +ℤ y)))) f
    agrees none = refl
    agrees (some high) = rw (passes _ f e) refl

num_bytes_agree :
    (cs : List ℕ) (y : ℤ) (n : ℕ) (f : ObjFile)
    → f.build ≡ release
    → IsComplete cs
    → Objio.num_bytes cs y n f ≡ Input.num_bytes cs y n f
unfolding Objio.num_bytes Input.num_bytes
num_bytes_agree [] y n f e complete = absurd complete
num_bytes_agree (c ∷ cs) y n f e complete = elim (Bool-cases (leb 0x80 (uint8 c))) [
  | inl more ↦ rw more (
      rest (shift_left (pos (uint8 c - 128)) n) (λ s.
        num_bytes_agree cs (y +ℤ s) (n + 7) f e
          (subst (λ b. if b then IsComplete cs else Unit {0}) more complete)))
  | inr last ↦ rw last (last_byte_agrees y n (uint8 c) (with_rest cs f) e)
]
  where
    rest :
        (o : Option ℤ)
        → ((s : ℤ) → Objio.num_bytes cs (y +ℤ s) (n + 7) f ≡ Input.num_bytes cs (y +ℤ s) (n + 7) f)
        → (defined o >>= λ s. Objio.num_bytes cs (y +ℤ s) (n + 7)) f
          ≡ (defined o >>= λ s. Input.num_bytes cs (y +ℤ s) (n + 7)) f
    rest none later = refl
    rest (some s) later = later s

-- Where assertions are not compiled and a byte below 128 is left in the file, the loader and the
-- disassembler read a number alike, undefined shifts included.
pub read_num_agrees :
    (f : ObjFile) → f.build ≡ release → IsComplete f.rest → Objio.read_num f ≡ Input.read_num f
unfolding Objio.read_num Input.read_num
read_num_agrees f e complete = num_bytes_agree f.rest (pos 0) 0 f e complete
