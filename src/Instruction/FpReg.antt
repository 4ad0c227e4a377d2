-- ===== src/Instruction/FpReg.antt =====
-- loader/skl_fp_reg.cpp: the functions of <math.h> on a real register.
use oberon.Prelude.{ℕ, Option, none, some}
use oberon.Prelude.Tests.{◌==◌, if◌then◌else◌}
use oberon.Ieee.{Ieee}
use oberon.Shift.{field}
use oberon.Machine.State.{M, pure, halt, internal_error, ◌>>=◌, ◌>>◌}
use oberon.Machine.Register.{read_real_register, write_real_register, increment_pc}

-- loader/skl_fp_reg_opc.h.
pub data FpRegOpc : Type 0 where
  opc_arctan opc_cos opc_exp opc_ln opc_sin opc_sqrt opc_tan : FpRegOpc

-- skl_fp_reg_t.
pub record FpReg : Type 0 where
  pub opc : FpRegOpc
  pub rd : ℕ
  pub r0 : ℕ

unfoldable pub fp_value : Ieee → FpRegOpc → ℕ → ℕ
fp_value fp opc_arctan = fp.atan
fp_value fp opc_cos = fp.cos
fp_value fp opc_exp = fp.exp
fp_value fp opc_ln = fp.log
fp_value fp opc_sin = fp.sin
fp_value fp opc_sqrt = fp.sqrt
fp_value fp opc_tan = fp.tan

-- Each `interpret` with `epilog`.
unfoldable pub interpret_fp_reg : Ieee → FpReg → M (Unit {0})
unfolding fp_value
interpret_fp_reg fp i = do
  l ← read_real_register i.r0
  write_real_register i.rd (fp_value fp i.opc l)
  increment_pc 1

abbrev pub fp_reg_opc : ℕ → Option FpRegOpc
fp_reg_opc n =
    if n == 0
    then some opc_arctan
    else if n == 1
    then some opc_cos
    else if n == 2
    then some opc_exp
    else if n == 3
    then some opc_ln
    else if n == 4
    then some opc_sin
    else if n == 5
    then some opc_sqrt
    else if n == 6
    then some opc_tan
    else none

unfoldable pub op_fp_reg : ℕ → M FpReg
unfolding field
op_fp_reg inst = elim (fp_reg_opc (field inst 4 0)) [
  | none ↦ halt internal_error
  | some opc ↦ pure (record { opc = opc; rd = field inst 25 21; r0 = field inst 20 16 })
]
