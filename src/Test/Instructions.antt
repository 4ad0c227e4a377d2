-- ===== src/Test/Instructions.antt =====
-- The theorems on instructions between registers at the sample machine.
use oberon.Prelude.{◌≡◌, refl, arith}
use oberon.Prelude.Tests.{if◌then◌else◌}
use oberon.Prelude.Word.{add32}
use oberon.Machine.State.{Machine, returns, ◌>>◌}
use oberon.Machine.Register.{with_pc}
use oberon.Machine.Trap.{trapped, software_trapped, divide_by_zero}
use oberon.Instruction.GenReg.{int_int, real, opc_div, opc_mod, interpret_gen_reg}
use oberon.Instruction.GenReg.Division.{integer, real_div, division_by_zero}
use oberon.Instruction.Cond.{lt}
use oberon.Instruction.Jump.{conditional, interpret_jump}
use oberon.Instruction.Compare.{compare, between, decides, compare_then_jump}
use oberon.Instruction.System.{SysTrap, array, interpret_systrap}
use oberon.Instruction.System.Check.{sound, check_decides}
use oberon.Test.{machine, whole_numbers}

-- The check of the index in r2 against the length in r1.
abbrev index_check : SysTrap
index_check = record { test = array; opc = 13; rd = 1; r0 = 2; subcl = 0 }

compare_then_jump_example :
    (m' : Machine) × ((interpret_gen_reg whole_numbers int_int (compare 2 1 3)
          >> (between >> interpret_jump (conditional lt 3 4100 4800)))
        machine
      ≡ returns tt m')
    × (m'.cpu.pc ≡ (if decides lt 3 5 7 then 4800 else add32 (add32 4096 4) 8))
compare_then_jump_example =
    compare_then_jump whole_numbers 2 1 3 lt machine (omega arith) (omega arith) 4100 4800

division_by_zero_example :
    (interpret_gen_reg whole_numbers int_int (integer opc_div 3 1 0) machine
      ≡ returns tt (with_pc (add32 4200 4) (trapped divide_by_zero machine)))
    × (interpret_gen_reg whole_numbers int_int (integer opc_mod 3 1 0) machine
        ≡ returns tt (with_pc (add32 4200 4) (trapped divide_by_zero machine)))
    × (interpret_gen_reg whole_numbers real (real_div 3 1 0) machine
        ≡ returns tt (trapped divide_by_zero machine))
division_by_zero_example = division_by_zero whole_numbers 3 1 0 machine refl refl refl

check_decides_example : interpret_systrap index_check machine ≡ (
    if sound array 5 7
    then returns tt (with_pc (add32 4096 4) machine)
    else returns tt (software_trapped 13 machine))
check_decides_example = check_decides index_check machine (omega arith)
