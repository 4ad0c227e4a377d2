-- ===== src/O3/Step.antt =====
-- loader/o3.h: the operations of `int` at the signs at which DIV and MOD use them.
use oberon.Prelude.{ℕ, suc, ◌+◌, ◌/◌, ◌%◌, ◌^◌, ◌<◌, ◌≡◌, refl, arith, some}
use oberon.Prelude.Int.{pos, negsuc, sub_ℕ}
use oberon.O3.{neg, add, sub, quot, rem, one}
use native.Mathlib.Nat.{div-le_self}

-- Each operation on values that do not leave `int`.
pub neg_pos : (n : ℕ) → n < 2 ^ 31 → neg (pos n) ≡ some (sub_ℕ 0 n)
unfolding neg
neg_pos n h = ground arith

pub neg_negsuc : (n : ℕ) → suc n < 2 ^ 31 → neg (negsuc n) ≡ some (pos (suc n))
unfolding neg
neg_negsuc n h = ground arith

pub sub_one : (n : ℕ) → n < 2 ^ 31 → sub (pos n) one ≡ some (sub_ℕ n 1)
unfolding sub
sub_one n h = ground arith

pub sub_neg : (n d : ℕ) → n + d < 2 ^ 31 → sub (sub_ℕ n 1) (negsuc d) ≡ some (pos (n + d))
unfolding sub
sub_neg n d h = ground arith

pub add_pos_suc :
    (n d : ℕ) → n + suc d < 2 ^ 31 → add (pos n) (pos (suc d)) ≡ some (pos (suc n + d))
unfolding add
add_pos_suc n d h = ground arith

pub quot_pos : (n d : ℕ) → n < 2 ^ 31 → quot (pos n) (pos (suc d)) ≡ some (pos (n / suc d))
unfolding quot
quot_pos n d h = ground (arith, div-le_self n (suc d))

pub rem_pos : (n d : ℕ) → rem (pos n) (pos (suc d)) ≡ some (pos (n % suc d))
unfolding rem
rem_pos n d = refl

pub sub_suc : (n : ℕ) → n < 2 ^ 31 → sub (pos (suc n)) one ≡ some (pos n)
unfolding sub
sub_suc n h = ground arith

pub add_rem :
    (d r : ℕ) → suc d < 2 ^ 31 → r < suc d → add (negsuc d) (pos r) ≡ some (sub_ℕ r (suc d))
unfolding add
add_rem d r h k = ground arith

pub sub_rem :
    (d r : ℕ) → suc d < 2 ^ 31 → r < suc d → sub (pos (suc d)) (pos r) ≡ some (sub_ℕ (suc d) r)
unfolding sub
sub_rem d r h k = ground arith
