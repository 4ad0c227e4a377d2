-- ===== src/Instruction/GenReg.antt =====
-- loader/skl_gen_reg.cpp: arithmetic on registers of both banks.
pub mod Division
use oberon.Prelude.{ℕ, zero, suc, Bool, true, false, Option, none, some}
use oberon.Prelude.Tests.{◌==◌, if◌then◌else◌}
use oberon.Prelude.Int.{ℤ, pos, ltb_ℤ}
use oberon.Prelude.Word.{add32, sub32, mul32, int32, pattern32}
use oberon.Ieee.{Ieee, synthesize_flags_double}
use oberon.Shift.{field}
use oberon.Flags.{synthesize_flags_int32}
use oberon.O3.{div, modulo, neg}
use oberon.Machine.State.{M, pure, halt, internal_error, defined, ◌>>=◌, ◌>>◌}
use oberon.Machine.Register.{
  read_integer_register, write_integer_register, read_real_register, write_real_register,
  increment_pc, exception_raised,
}
use oberon.Machine.Trap.{hardware_trap, divide_by_zero}

-- loader/skl.h: register_bank_t.
pub data RegisterBank : Type 0 where
  rb_integer rb_double : RegisterBank

abbrev pub bank_of : ℕ → RegisterBank
bank_of zero = rb_integer
bank_of (suc n) = rb_double

unfoldable pub compute_using : RegisterBank → RegisterBank → RegisterBank
compute_using rb_integer rb_integer = rb_integer
compute_using rb_integer rb_double = rb_double
compute_using rb_double b = rb_double

-- loader/skl_gen_reg_opc.h.
pub data GenRegOpc : Type 0 where
  opc_add opc_sub opc_mul opc_div opc_mod opc_cmp opc_abs : GenRegOpc

abbrev pub gen_reg_opc : ℕ → Option GenRegOpc
gen_reg_opc n =
    if n == 0
    then some opc_add
    else if n == 1
    then some opc_sub
    else if n == 2
    then some opc_mul
    else if n == 3
    then some opc_div
    else if n == 4
    then some opc_mod
    else if n == 5
    then some opc_cmp
    else if n == 6
    then some opc_abs
    else none

-- The three families of structs: integers to an integer, integers to a real, and reals.
pub data GenRegKind : Type 0 where
  int_int int_real real : GenRegKind

-- skl_gen_reg_t.
pub record GenReg : Type 0 where
  pub kind : GenRegKind
  pub opc : GenRegOpc
  pub rd : ℕ
  pub r0 : ℕ
  pub r1 : ℕ
  pub bd : RegisterBank
  pub b0 : RegisterBank
  pub b1 : RegisterBank

-- `abs` of <stdlib.h> on an `int`.
abbrev pub abs : ℤ → Option ℤ
abs a = if ltb_ℤ a (pos 0) then neg a else some a

-- The value of the integer instructions; none for a division by zero, which traps.
unfoldable pub int_value : GenRegOpc → ℕ → ℕ → M ℕ
int_value opc_add l r = pure (add32 l r)
int_value opc_sub l r = pure (sub32 l r)
int_value opc_mul l r = pure (mul32 l r)
int_value opc_div l r = do v ← defined (div (int32 l) (int32 r)); pure (pattern32 v)
int_value opc_mod l r = do v ← defined (modulo (int32 l) (int32 r)); pure (pattern32 v)
int_value opc_cmp l r = pure (synthesize_flags_int32 l r)
int_value opc_abs l r = do v ← defined (abs (int32 r)); pure (pattern32 v)

abbrev pub is_division : GenRegOpc → Bool
is_division opc_div = true
is_division opc_mod = true
is_division _ = false

-- The bodies of the integer `interpret` methods, with the write of the destination as `store`.
-- The program counter is advanced after a trap too.
unfoldable pub interpret_int : (ℕ → M (Unit {0})) → GenReg → M (Unit {0})
unfolding int_value
interpret_int store i = do
  l ← read_integer_register i.r0
  r ← read_integer_register i.r1
  if is_division i.opc
      then if r == 0 then hardware_trap divide_by_zero else int_value i.opc l r >>= store
      else int_value i.opc l r >>= store
  increment_pc 1

module _ (fp : Ieee) where
  -- loader/skl.cpp.
  unfoldable pub register_as_double : ℕ → RegisterBank → M ℕ
  register_as_double regno rb_integer = do v ← read_integer_register regno; pure (fp.of_uint32 v)
  register_as_double regno rb_double = read_real_register regno

  -- skl_gen_reg_real_t::epilog.
  unfoldable pub epilog : GenReg → ℕ → M (Unit {0})
  epilog i v = do
    raised ← exception_raised
    if raised then pure tt else elim i.bd [
      | rb_integer ↦ (do w ← defined (fp.to_uint32 v); write_integer_register i.rd w)
      | rb_double ↦ write_real_register i.rd v
    ]
    increment_pc 1

  unfoldable pub real_value : GenRegOpc → GenReg → ℕ → ℕ → M (Unit {0})
  unfolding epilog
  real_value opc_add i l r = epilog i (fp.add l r)
  real_value opc_sub i l r = epilog i (fp.sub l r)
  real_value opc_mul i l r = epilog i (fp.mul l r)
  real_value opc_div i l r =
      if fp.eq r 0 then hardware_trap divide_by_zero else epilog i (fp.div l r)
  real_value opc_mod i l r = pure tt
  real_value opc_cmp i l r = epilog i (fp.of_uint32 (synthesize_flags_double fp l r))
  real_value opc_abs i l r = epilog i (fp.fabs r)

  unfoldable pub interpret_real : GenReg → M (Unit {0})
  unfolding register_as_double real_value
  interpret_real i = do
    l ← register_as_double i.r0 i.b0
    r ← register_as_double i.r1 i.b1
    real_value i.opc i l r

  unfoldable pub interpret_gen_reg : GenRegKind → GenReg → M (Unit {0})
  unfolding interpret_int interpret_real
  interpret_gen_reg int_int i = interpret_int (write_integer_register i.rd) i
  interpret_gen_reg int_real i =
      interpret_int (λ v. write_real_register i.rd (fp.of_int32 (int32 v))) i
  interpret_gen_reg real i = interpret_real i

-- Which struct the decoder allocates. MOD on reals is refused by its constructor.
abbrev pub gen_reg_kind : RegisterBank → RegisterBank → GenRegKind
gen_reg_kind rb_integer rb_integer = int_int
gen_reg_kind rb_integer rb_double = int_real
gen_reg_kind rb_double bd = real

abbrev pub construct_gen_reg : GenReg → M GenReg
construct_gen_reg i = refuse i.kind i.opc
  where
    refuse : GenRegKind → GenRegOpc → M GenReg
    refuse real opc_mod = halt internal_error
    refuse k o = pure i

unfoldable pub op_gen_reg : ℕ → M GenReg
unfolding field compute_using
op_gen_reg inst =
    let b1 = bank_of (field inst 8 8) in
    let b0 = bank_of (field inst 9 9) in
    let bd = bank_of (field inst 10 10) in
    elim (gen_reg_opc (field inst 4 0)) [
      | none ↦ halt internal_error
      | some opc ↦ construct_gen_reg (record {
        kind = gen_reg_kind (compute_using b0 b1) bd;
        opc = opc;
        rd = field inst 25 21;
        r0 = field inst 20 16;
        r1 = field inst 15 11;
        bd = bd;
        b0 = b0;
        b1 = b1;
      })
    ]
