-- ===== src/Flags/Relation.antt =====
-- loader/skl_flags.h: each relation, read from the flags of a comparison, is that comparison of the
-- operands.
use oberon.Prelude.{ℕ, ◌^◌, ◌<◌, ◌≡◌, refl, not, arith}
use oberon.Prelude.Tests.{ltb, leb, ◌==◌}
use oberon.Prelude.Int.{ltb_ℤ}
use oberon.Prelude.Word.{sub32, int32}
use oberon.Flags.{
  differs, synthesize_flags_int32, relation_eq, relation_ne, relation_lt, relation_ge, relation_le,
  relation_gt, relation_ltu, relation_geu, relation_leu, relation_gtu,
}
use oberon.Flags.Signed.{ReadsBack, flag-flag_word, sign, overflow, synthesize_flags_int32_lem}

-- What the ten relations say of a flag word.
abbrev pub Compares : ℕ → ℕ → ℕ → Type 0
Compares w l r =
    (relation_eq w ≡ (l == r))
    × (relation_ne w ≡ not (l == r))
    × (relation_lt w ≡ ltb_ℤ (int32 l) (int32 r))
    × (relation_ge w ≡ not (ltb_ℤ (int32 l) (int32 r)))
    × (relation_le w ≡ not (ltb_ℤ (int32 r) (int32 l)))
    × (relation_gt w ≡ ltb_ℤ (int32 r) (int32 l))
    × (relation_ltu w ≡ ltb l r)
    × (relation_geu w ≡ leb r l)
    × (relation_leu w ≡ leb l r)
    × (relation_gtu w ≡ ltb r l)

compare_flags :
    (l r : ℕ)
    → l < 2 ^ 32
    → r < 2 ^ 32
    → ReadsBack (synthesize_flags_int32 l r) (l == r) (sign (sub32 l r)) (ltb l r) (overflow l r)
compare_flags l r hl hr = rw (synthesize_flags_int32_lem l r hl hr) (flag-flag_word _ _ _ _)

sign-overflow : (l r : ℕ) → differs (sign (sub32 l r)) (overflow l r) ≡ ltb_ℤ (int32 l) (int32 r)
unfolding overflow
sign-overflow l r = ground arith

-- After a comparison of two 32-bit values, every relation of the emulator holds of the flags
-- exactly when the comparison it is named for, signed or unsigned, holds of the values.
pub relations_of_compare :
    (l r : ℕ) → l < 2 ^ 32 → r < 2 ^ 32 → Compares (synthesize_flags_int32 l r) l r
unfolding relation_eq relation_ne relation_lt relation_ge relation_le relation_gt relation_ltu
    relation_geu relation_leu relation_gtu
relations_of_compare l r hl hr =
    let (z, s, c, o) = compare_flags l r hl hr in
    rw (z, s, c, o, sign-overflow l r)
      (
        refl,
        refl,
        refl,
        refl,
        ground arith,
        ground arith,
        refl,
        ground arith,
        ground arith,
        ground arith,
      )
