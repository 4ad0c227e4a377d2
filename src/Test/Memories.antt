-- ===== src/Test/Memories.antt =====
-- The theorems on memory and the stack at the sample machine.
use oberon.Prelude.{◌+◌, ℕ, ◌*◌, ◌%◌, ◌^◌, ◌≡◌, refl, arith, true}
use oberon.Prelude.Word.{add32, uint32}
use oberon.Machine.State.{◌>>=◌, returns, ◌>>◌}
use oberon.Machine.Register.{sp, retadr, with_pc, with_integer}
use oberon.Machine.Memory.{with_bytes}
use oberon.Instruction.RegMem.{
  compute_effective_address, byte, store_int, load_int, interpret_reg_mem,
}
use oberon.Instruction.RegMem.LoadStored.{operands, narrowed, store_bytes, store_then_load}
use oberon.Instruction.BitTest.{set_memory, clear_memory}
use oberon.Instruction.BitTest.Memory.{Changed, bit-Changed}
use oberon.Instruction.Stack.{push, pop, interpret_stack, interpret_enter, interpret_leave}
use oberon.Instruction.Stack.Push.{HasRoom, moved, push_then_pop}
use oberon.Instruction.Stack.Frame.{HasFrame, entered}
use oberon.Instruction.Stack.Leave.{KeepsFrame, enter_then_leave}
use oberon.Shift.{field}
use oberon.Instruction.Jump.{construct_jal, interpret_jump, interpret_jral}
use oberon.Instruction.Jump.Call.{called, call_then_return}
use oberon.Instruction.Stack.Double.{HasDoubleRoom}
use oberon.Test.{machine, machine_memory, whole_numbers}

store_then_load_example :
    (interpret_reg_mem whole_numbers (store_int byte (operands 1 8 0 0 16))
        >> interpret_reg_mem whole_numbers (load_int byte true (operands 3 8 0 0 16)))
      machine
    ≡ returns tt (
        with_pc (add32 (add32 4096 8) 8) (
          with_integer 3
            (narrowed byte true 7)
            (with_pc (add32 4096 8) (with_bytes (store_bytes byte machine.bytes 5016 7) machine))))
unfolding compute_effective_address
store_then_load_example =
    store_then_load whole_numbers machine machine_memory byte true 1 3 8 0 0 16 (ground arith)

bit-Changed_example : Changed set_memory 3 4 8 1 machine × Changed clear_memory 3 4 8 0 machine
bit-Changed_example = bit-Changed 3 4 8 machine machine_memory (ground arith) refl (omega arith)

room : HasRoom machine
room = record {
  has = machine_memory;
  above_word = omega arith;
  top_small = omega arith;
  inside = ground arith;
  running = refl;
}

push_then_pop_example :
    (interpret_stack whole_numbers (push 1) >> interpret_stack whole_numbers (pop 3)) machine
    ≡ returns tt (moved 1 3 machine)
push_then_pop_example = push_then_pop whole_numbers room 1 3 (omega arith)

frame : HasFrame 3 machine
frame = record {
  has = machine_memory;
  whole = omega arith;
  above_beg = omega arith;
  below_end = omega arith;
  running = refl;
}

keeps : KeepsFrame 29 3 machine (entered 29 3 machine)
keeps = record {
  memory = refl;
  block = refl;
  running = refl;
  frame_pointer = refl;
  words = λ q lo hi. refl;
}

enter_then_leave_example :
    (interpret_enter 29 3 machine ≡ returns tt (entered 29 3 machine))
    × (interpret_leave 29 2 (entered 29 3 machine)
        ≡ returns tt (
            with_pc (add32 4100 4) (
              with_integer sp (add32 6000 (uint32 (2 * 4))) (
                with_integer 29
                  (5000 % 2 ^ 32)
                  (with_integer retadr (4660 % 2 ^ 32) (entered 29 3 machine))))))
enter_then_leave_example = enter_then_leave 29 3 2 machine frame (entered 29 3 machine) keeps

-- JAL with the register of return addresses in its field.
abbrev call : ℕ
call = 31 * 2 ^ 21 + 11

call_then_return_example :
    ((construct_jal 5000 call >>= interpret_jump) machine ≡ returns tt (called 5000 machine))
    × (interpret_jral (record { rd = 0; r0 = retadr; return_addr = 100 }) (called 5000 machine)
        ≡ returns tt (with_pc (add32 5000 8) (with_integer 0 100 (called 5000 machine))))
unfolding field
call_then_return_example =
    call_then_return 5000 call machine machine_memory (ground arith) refl (called 5000 machine) 0
      100 refl

double_room : HasDoubleRoom machine
double_room = record {
  has = machine_memory;
  above = omega arith;
  below = omega arith;
  running = refl;
}
