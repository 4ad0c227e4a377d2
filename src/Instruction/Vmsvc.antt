-- ===== src/Instruction/Vmsvc.antt =====
-- loader/skl_misc.cpp and loader/skl_vmsvc.cpp: the call of a service of the virtual machine. The
-- services themselves, which do input and output on the host, are a parameter.
use oberon.Prelude.{ℕ, false, ◌&&◌, not}
use oberon.Prelude.Tests.{◌==◌, ltb, if◌then◌else◌}
use oberon.Shift.{field}
use oberon.Machine.State.{M, pure, halt, not_implemented, ◌>>=◌, ◌>>◌}
use oberon.Machine.Register.{read_integer_register, increment_pc, exception_raised}
use oberon.Machine.Memory.{read}

-- loader/skl_vmsvc_operation.h.
abbrev pub n_vmsvc_operations : ℕ
n_vmsvc_operations = 12

abbrev pub vmsvc_time : ℕ
vmsvc_time = 5

-- skl_vmsvc_t.
pub record Vmsvc : Type 0 where
  pub r0 : ℕ

-- `service svc adr` is the function that the switch calls.
module _ (service : ℕ → ℕ → M (Unit {0})) where
  unfoldable pub dispatch : ℕ → ℕ → M (Unit {0})
  dispatch svc adr =
      if ltb svc n_vmsvc_operations && not (svc == vmsvc_time)
      then service svc adr
      else halt not_implemented

  unfoldable pub interpret_vmsvc : Vmsvc → M (Unit {0})
  unfolding dispatch
  interpret_vmsvc i = do
    adr ← read_integer_register i.r0
    svc ← read adr false 4
    raised ← exception_raised
    if raised then pure tt else (do dispatch svc adr; increment_pc 1)

-- BREAK, WAIT and ERET are not implemented.
unfoldable pub op_misc : ℕ → M Vmsvc
unfolding field
op_misc inst =
    if field inst 4 0 == 3 then pure (record { r0 = field inst 20 16 }) else halt not_implemented
