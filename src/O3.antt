-- ===== src/O3.antt =====
-- loader/o3.h: the DIV and MOD (`div` and `modulo`) of Oberon on `int32`. C++ `/` and `%` round towards zero, and an
-- intermediate value outside `int` is undefined, which is `none`.
pub mod Step
pub mod Floor
pub mod Input
pub mod Agreed
pub mod Header
pub mod Layout
pub mod Loader
pub mod Modules
pub mod Descriptors
pub mod TdFixups
pub mod Allocations
pub mod Segments
pub mod Blocks
pub mod TypeBlocks
pub mod Uses
pub mod Load
pub mod Chain
pub mod Added
pub mod Walked
pub mod Found
pub mod Located
pub mod Known
pub mod Exports
pub mod Unchecked
pub mod Fixed
pub mod Privates
pub mod Ends
pub mod Endings
pub mod UsesEnd
pub mod NewString
use oberon.Prelude.{ℕ, zero, suc, ◌+◌, ◌-◌, ◌*◌, ◌/◌, ◌%◌, Bool, true, false, Option, none, some}
use oberon.Prelude.Tests.{ltb, ◌==◌, if◌then◌else◌}
use oberon.Prelude.Int.{ℤ, pos, negsuc, pos_part, neg_part, sub_ℕ, ◌+ℤ◌, ◌-ℤ◌, ltb_ℤ}
use oberon.Prelude.Word.{checked}

infixl 5 ◌>>=◌
abbrev ◌>>=◌ : Option ℤ → (ℤ → Option ℤ) → Option ℤ
none >>= f = none
some a >>= f = f a

-- Unary minus, `+` and `-` of `int`.
unfoldable pub neg : ℤ → Option ℤ
neg a = checked (sub_ℕ (neg_part a) (pos_part a))

unfoldable pub add : ℤ → ℤ → Option ℤ
add a b = checked (sub_ℕ (pos_part a + pos_part b) (neg_part a + neg_part b))

unfoldable pub sub : ℤ → ℤ → Option ℤ
sub a b = checked (sub_ℕ (pos_part a + neg_part b) (neg_part a + pos_part b))

-- C++ `a / b` and `a % b`, undefined for a zero divisor.
unfoldable pub quot : ℤ → ℤ → Option ℤ
quot a (pos zero) = none
quot (pos n) (pos (suc d)) = checked (pos (n / suc d))
quot (pos n) (negsuc d) = checked (sub_ℕ 0 (n / suc d))
quot (negsuc n) (pos (suc d)) = checked (sub_ℕ 0 (suc n / suc d))
quot (negsuc n) (negsuc d) = checked (pos (suc n / suc d))

unfoldable pub rem : ℤ → ℤ → Option ℤ
rem a (pos zero) = none
rem (pos n) (pos (suc d)) = some (pos (n % suc d))
rem (pos n) (negsuc d) = some (pos (n % suc d))
rem (negsuc n) (pos (suc d)) = some (sub_ℕ 0 (suc n % suc d))
rem (negsuc n) (negsuc d) = do _ ← checked (pos (suc n / suc d)); some (sub_ℕ 0 (suc n % suc d))

abbrev pub is_zero : ℤ → Bool
is_zero a = pos_part a + neg_part a == 0

abbrev pub one : ℤ
one = pos 1

abbrev pub nonneg : ℤ → Bool
nonneg a = if ltb_ℤ a (pos 0) then false else true

abbrev pub positive : ℤ → Bool
positive a = ltb_ℤ (pos 0) a

unfoldable pub div : ℤ → ℤ → Option ℤ
div x y =
    if nonneg x
    then if positive y
      then quot x y
      else (do a ← sub x one; b ← sub a y; d ← neg y; q ← quot b d; neg q)
    else if positive y
    then (do a ← neg x; b ← sub a one; c ← add b y; q ← quot c y; neg q)
    else (do a ← neg x; d ← neg y; quot a d)

unfoldable pub modulo : ℤ → ℤ → Option ℤ
modulo x y =
    if nonneg x
    then if positive y
      then rem x y
      else (do d ← neg y; r ← rem x d; if is_zero r then some (pos 0) else add y r)
    else if positive y
    then (do a ← neg x; r ← rem a y; if is_zero r then some (pos 0) else sub y r)
    else (do a ← neg x; d ← neg y; r ← rem a d; neg r)
