-- ===== src/Flags.antt =====
-- loader/skl_flags.h and loader/generic/skl_flags_alu.h: condition flags of a comparison. The
-- versions of skl_flags_alu.h for x86 and arm64 compute the same flags in assembly.
pub mod Signed
pub mod Relation
use oberon.Prelude.{ℕ, ◌+◌, ◌*◌, ◌^◌, Bool, ◌&&◌, ◌||◌, not, bit_and, bit_or, bit_xor}
use oberon.Prelude.Tests.{ltb, ◌==◌, bool_to_nat, if◌then◌else◌}
use oberon.Prelude.Word.{sub32}
use oberon.Shift.{left_shift}

-- Bit positions of the flags.
abbrev pub zf : ℕ
zf = 0

abbrev pub sf : ℕ
sf = 1

abbrev pub cf : ℕ
cf = 2

abbrev pub of : ℕ
of = 3

unfoldable pub create_flags : Bool → Bool → Bool → Bool → ℕ
create_flags z s c o =
    bit_or
      (bit_or (bit_or (bool_to_nat z * 2 ^ zf) (bool_to_nat s * 2 ^ sf)) (bool_to_nat c * 2 ^ cf))
      (bool_to_nat o * 2 ^ of)

-- `!!` of a number.
abbrev pub is_set : ℕ → Bool
is_set n = not (n == 0)

unfoldable pub flag : ℕ → ℕ → Bool
unfolding left_shift
flag flags b = is_set (bit_and flags (left_shift 1 b))

unfoldable pub relation_eq : ℕ → Bool
relation_eq flags = flag flags zf

unfoldable pub relation_ne : ℕ → Bool
relation_ne flags = not (flag flags zf)

unfoldable pub relation_ltu : ℕ → Bool
relation_ltu flags = flag flags cf

unfoldable pub relation_geu : ℕ → Bool
relation_geu flags = not (flag flags cf)

unfoldable pub relation_leu : ℕ → Bool
relation_leu flags = flag flags cf || flag flags zf

unfoldable pub relation_gtu : ℕ → Bool
relation_gtu flags = not (flag flags cf) && not (flag flags zf)

-- `!=` and `==` of two flags.
abbrev pub differs : Bool → Bool → Bool
differs a b = if a then not b else b

unfoldable pub relation_lt : ℕ → Bool
relation_lt flags = differs (flag flags sf) (flag flags of)

unfoldable pub relation_ge : ℕ → Bool
relation_ge flags = not (differs (flag flags sf) (flag flags of))

unfoldable pub relation_le : ℕ → Bool
relation_le flags = flag flags zf || differs (flag flags sf) (flag flags of)

unfoldable pub relation_gt : ℕ → Bool
relation_gt flags = not (flag flags zf) && not (differs (flag flags sf) (flag flags of))

-- The overflow of l - r, on the patterns of two `int32`.
unfoldable pub synthesize_of : ℕ → ℕ → ℕ
unfolding left_shift
synthesize_of ul ur =
    let res = sub32 ul ur in
    let sign_mask = left_shift 1 31 in
    let not_equal = bit_xor ul ur in
    let sign_diff = bit_xor ul res in
    bool_to_nat (is_set (bit_and (bit_and not_equal sign_diff) sign_mask))

unfoldable pub synthesize_zf : ℕ → ℕ → ℕ
synthesize_zf l r = bool_to_nat (sub32 l r == 0)

unfoldable pub synthesize_sf : ℕ → ℕ → ℕ
unfolding left_shift
synthesize_sf ul ur = bool_to_nat (is_set (bit_and (sub32 ul ur) (left_shift 1 31)))

unfoldable pub synthesize_cf : ℕ → ℕ → ℕ
synthesize_cf l r = bool_to_nat (ltb l r)

unfoldable pub synthesize_flags_int32 : ℕ → ℕ → ℕ
synthesize_flags_int32 l r =
    let z = synthesize_zf l r * 2 ^ 0 in
    let s = synthesize_sf l r * 2 ^ 1 in
    let c = synthesize_cf l r * 2 ^ 2 in
    let o = synthesize_of l r * 2 ^ 3 in bit_or (bit_or (bit_or o c) s) z
