-- ===== src/O3/Floor.antt =====
-- loader/o3.h: DIV and MOD round towards minus infinity, and when they are defined.
use oberon.Prelude.{
  inl, inr, ℕ, zero, suc, ◌+◌, ◌-◌, ◌*◌, ◌/◌, ◌%◌, ◌^◌, ◌<◌, ◌≡◌, ◌≢◌, refl, arith, some,
}
use oberon.Prelude.Tests.{Bool-cases, ◌==◌, if◌then◌else◌}
use oberon.Prelude.Int.{ℤ, pos, negsuc, sub_ℕ, ◌+ℤ◌, ◌*ℤ◌, ◌≤ℤ◌, ◌<ℤ◌}
use oberon.O3.{div, modulo}
use native.Mathlib.Nat.{div-add-mod, mod-le, mod-lt, div-eq_of_lt-le, div-le_self}
use oberon.O3.Step.{
  neg_pos, neg_negsuc, sub_one, sub_neg, add_pos_suc, quot_pos, rem_pos, sub_suc, add_rem, sub_rem,
}

-- The values of an `int32`.
abbrev pub IsInt32 : ℤ → Type 0
IsInt32 z = (negsuc (2 ^ 31 - 1) ≤ℤ z) × (z ≤ℤ pos (2 ^ 31 - 1))

-- Quotient and remainder of the division that rounds down: the remainder has the divisor's sign.
abbrev pub IsFloor : ℤ → ℤ → ℤ → ℤ → Type 0
IsFloor x y q r =
    (x ≡ q *ℤ y +ℤ r)
    × (pos 0 <ℤ y → (pos 0 ≤ℤ r) × (r <ℤ y))
    × (y <ℤ pos 0 → (y <ℤ r) × (r ≤ℤ pos 0))

-- The operands at which no intermediate value of DIV leaves `int`.
abbrev pub NoOverflow : ℤ → ℤ → Type 0
NoOverflow (pos n) (pos d) = Unit {0}
NoOverflow (pos n) (negsuc d) = (n + d < 2 ^ 31) × (suc d < 2 ^ 31)
NoOverflow (negsuc n) (pos d) = (suc n < 2 ^ 31) × (n + d < 2 ^ 31)
NoOverflow (negsuc n) (negsuc d) = (suc n < 2 ^ 31) × (suc d < 2 ^ 31)

abbrev pub DivMod : ℤ → ℤ → Type 0
DivMod x y = (q : ℤ) × (r : ℤ) × (div x y ≡ some q) × (modulo x y ≡ some r) × IsFloor x y q r

ceil_exact : (n d : ℕ) → n % suc d ≡ 0 → (n + d) / suc d ≡ n / suc d
ceil_exact n d h =
    div-eq_of_lt-le (suc d) (omega (arith, div-add-mod n (suc d)))
      (omega (arith, div-add-mod n (suc d)))

ceil_above : (n d : ℕ) → 0 < n % suc d → (n + d) / suc d ≡ n / suc d + 1
ceil_above n d h =
    div-eq_of_lt-le (suc d) (omega (arith, div-add-mod n (suc d)))
      (omega (arith, div-add-mod n (suc d), mod-lt n {m = suc d} (omega arith)))

remainder_small : (n d : ℕ) → n < 2 ^ 31 → n % suc d < 2 ^ 31
remainder_small n d h = omega (arith, mod-le n (suc d))

quotient_small : (n d : ℕ) → n < 2 ^ 31 → n / suc d < 2 ^ 31
quotient_small n d h = omega (arith, div-le_self n (suc d))

DivMod-pos : (n d : ℕ) → n < 2 ^ 31 → suc d < 2 ^ 31 → DivMod (pos n) (pos (suc d))
unfolding div modulo ◌+ℤ◌ ◌*ℤ◌
DivMod-pos n d hn hd = (
  pos (n / suc d),
  pos (n % suc d),
  ground (arith, quot_pos n d hn),
  ground (arith, rem_pos n d),
  (
    ground (arith, div-add-mod n (suc d)),
    ground (arith, mod-lt n {m = suc d} (omega arith)),
    ground arith,
  ),
)

DivMod-neg : (n d : ℕ) → suc n < 2 ^ 31 → suc d < 2 ^ 31 → DivMod (negsuc n) (negsuc d)
unfolding div modulo ◌+ℤ◌ ◌*ℤ◌
DivMod-neg n d hn hd = (
  pos (suc n / suc d),
  sub_ℕ 0 (suc n % suc d),
  ground (arith, neg_negsuc n hn, neg_negsuc d hd, quot_pos (suc n) d hn),
  ground (
    arith,
    neg_negsuc n hn,
    neg_negsuc d hd,
    rem_pos (suc n) d,
    neg_pos (suc n % suc d) (remainder_small (suc n) d hn),
  ),
  (
    ground (arith, div-add-mod (suc n) (suc d)),
    ground arith,
    ground (arith, mod-lt (suc n) {m = suc d} (omega arith)),
  ),
)

-- The remainder of the mixed signs: 0, or the remainder of the magnitudes moved by the divisor.
abbrev rem_pos_neg : ℕ → ℕ → ℤ
rem_pos_neg n d = if n % suc d == 0 then pos 0 else sub_ℕ (n % suc d) (suc d)

abbrev rem_neg_pos : ℕ → ℕ → ℤ
rem_neg_pos n d = if suc n % suc d == 0 then pos 0 else sub_ℕ (suc d) (suc n % suc d)

minus_suc : (q : ℕ) → sub_ℕ 0 (q + 1) ≡ negsuc q
minus_suc q = ground arith

minus_rest : (r d : ℕ) → r < suc d → sub_ℕ r (suc d) ≡ negsuc (d - r)
minus_rest r d h = ground arith

plus_rest : (r d : ℕ) → r < suc d → sub_ℕ (suc d) r ≡ pos (suc d - r)
plus_rest r d h = ground arith

recompose_pos_neg :
    (q r d n : ℕ) → suc d * q + r ≡ n → r < suc d → pos n ≡ negsuc q *ℤ negsuc d +ℤ negsuc (d - r)
unfolding ◌+ℤ◌ ◌*ℤ◌
recompose_pos_neg q r d n e h = ground arith

recompose_neg_pos :
    (q r d n : ℕ)
    → suc d * q + r ≡ suc n
    → r < suc d
    → negsuc n ≡ negsuc q *ℤ pos (suc d) +ℤ pos (suc d - r)
unfolding ◌+ℤ◌ ◌*ℤ◌
recompose_neg_pos q r d n e h = ground arith

floor_pos_neg :
    (n d : ℕ)
    → 0 < n % suc d
    → pos n ≡ sub_ℕ 0 ((n + d) / suc d) *ℤ negsuc d +ℤ sub_ℕ (n % suc d) (suc d)
floor_pos_neg n d h =
    let below = mod-lt n {m = suc d} (omega arith) in
    rw (ceil_above n d h, minus_suc, minus_rest (n % suc d) d below)
      (recompose_pos_neg (n / suc d) (n % suc d) d n (div-add-mod n (suc d)) below)

floor_neg_pos :
    (n d : ℕ)
    → 0 < suc n % suc d
    → negsuc n ≡ sub_ℕ 0 ((suc n + d) / suc d) *ℤ pos (suc d) +ℤ sub_ℕ (suc d) (suc n % suc d)
floor_neg_pos n d h =
    let below = mod-lt (suc n) {m = suc d} (omega arith) in
    rw (ceil_above (suc n) d h, minus_suc, plus_rest (suc n % suc d) d below)
      (recompose_neg_pos (suc n / suc d) (suc n % suc d) d n (div-add-mod (suc n) (suc d)) below)

DivMod-pos_neg :
    (n d : ℕ) → n < 2 ^ 31 → n + d < 2 ^ 31 → suc d < 2 ^ 31 → DivMod (pos n) (negsuc d)
unfolding div modulo ◌+ℤ◌ ◌*ℤ◌
DivMod-pos_neg n d hn hs hd = (
  sub_ℕ 0 ((n + d) / suc d),
  rem_pos_neg n d,
  ground (
    arith,
    sub_one n hn,
    sub_neg n d hs,
    neg_negsuc d hd,
    quot_pos (n + d) d hs,
    neg_pos ((n + d) / suc d) (quotient_small (n + d) d hs),
  ),
  ground (
    arith,
    neg_negsuc d hd,
    rem_pos n d,
    add_rem d (n % suc d) hd (mod-lt n {m = suc d} (omega arith)),
  ),
  elim (Bool-cases (n % suc d == 0)) [
    | inl e ↦
        rw e (ground (arith, ceil_exact n d, div-add-mod n (suc d)), ground arith, ground arith)
    | inr e ↦ rw e (
      floor_pos_neg n d (ground arith),
      ground arith,
      ground (arith, mod-lt n {m = suc d} (omega arith)),
    )
  ],
)

DivMod-neg_pos : (n d : ℕ) → suc n < 2 ^ 31 → n + suc d < 2 ^ 31 → DivMod (negsuc n) (pos (suc d))
unfolding div modulo ◌+ℤ◌ ◌*ℤ◌
DivMod-neg_pos n d hn hs = (
  sub_ℕ 0 ((suc n + d) / suc d),
  rem_neg_pos n d,
  ground (
    arith,
    neg_negsuc n hn,
    sub_suc n (omega arith),
    add_pos_suc n d hs,
    quot_pos (suc n + d) d (omega arith),
    neg_pos ((suc n + d) / suc d) (quotient_small (suc n + d) d (omega arith)),
  ),
  ground (
    arith,
    neg_negsuc n hn,
    rem_pos (suc n) d,
    sub_rem d (suc n % suc d) (omega arith) (mod-lt (suc n) {m = suc d} (omega arith)),
  ),
  elim (Bool-cases (suc n % suc d == 0)) [
    | inl e ↦ rw e (
      ground (arith, ceil_exact (suc n) d, div-add-mod (suc n) (suc d)),
      ground arith,
      ground arith,
    )
    | inr e ↦ rw e (
      floor_neg_pos n d (ground arith),
      ground (arith, mod-lt (suc n) {m = suc d} (omega arith)),
      ground arith,
    )
  ],
)

-- For operands of 32 bits and a divisor that is not 0, unless an intermediate value overflows, DIV
-- and MOD return the quotient and the remainder of the division that rounds down.
pub DivMod-floor : (x y : ℤ) → IsInt32 x → IsInt32 y → y ≢ pos 0 → NoOverflow x y → DivMod x y
DivMod-floor x (pos zero) hx hy ne fits = absurd (ne refl)
DivMod-floor (pos n) (pos (suc d)) hx hy ne fits = DivMod-pos n d (omega arith) (omega arith)
DivMod-floor (pos n) (negsuc d) hx hy ne fits =
    DivMod-pos_neg n d (omega arith) (omega arith) (omega arith)
DivMod-floor (negsuc n) (pos (suc d)) hx hy ne fits = DivMod-neg_pos n d (omega arith) (omega arith)
DivMod-floor (negsuc n) (negsuc d) hx hy ne fits = DivMod-neg n d (omega arith) (omega arith)
