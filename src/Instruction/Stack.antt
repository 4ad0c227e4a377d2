-- ===== src/Instruction/Stack.antt =====
-- loader/skl_stack.cpp: push, pop and the frames of procedures.
pub mod Push
pub mod Frame
pub mod Leave
pub mod Fault
pub mod Double
use oberon.Prelude.{ℕ, ◌+◌, ◌*◌, false, ◌&&◌}
use oberon.Prelude.Tests.{◌==◌, leb, ltb, if◌then◌else◌}
use oberon.Prelude.Word.{uint32, add32, sub32}
use oberon.Ieee.{Ieee, decompose_lo, decompose_hi, recompose_double}
use oberon.Shift.{field}
use oberon.Machine.State.{
  M, alpha, beta, release, returns, halts, fatal, undefined, pure, halt, not_implemented, ◌>>=◌,
  ◌>>◌,
}
use oberon.Machine.Register.{
  sp, retadr, read_integer_register, write_integer_register, read_real_register,
  write_real_register, increment_pc, exception_raised,
}
use oberon.Machine.Memory.{read, write, with_bytes, within}

-- `if (!exception_raised) …`.
abbrev pub unless_raised : M (Unit {0}) → M (Unit {0})
unless_raised body = do raised ← exception_raised; if raised then pure tt else body

unfoldable pub push_word : ℕ → M (Unit {0})
push_word value = do
  top ← read_integer_register sp
  let below = sub32 top 4
  write below value 4
  unless_raised (write_integer_register sp below)

-- The value, which the callers ignore after a trap.
unfoldable pub pop_word : M ℕ
pop_word = do
  top ← read_integer_register sp
  value ← read top false 4
  unless_raised (write_integer_register sp (add32 top 4))
  pure value

-- stack_frame_t and stack_op_t.
pub data Stack : Type 0 where
  enter leave : (rd words : ℕ) → Stack
  push pushf pushd pop popf popd : (rd : ℕ) → Stack

-- `memset(heap::host_address(sp1), '\xff', n)` of alpha builds.
abbrev pub fill_bytes : (ℕ → ℕ) → ℕ → ℕ → ℕ → ℕ
fill_bytes bytes p n q = if leb p q && ltb q (p + n) then 0xff else bytes q

-- `host_address` of heap.h validates the pointer in alpha builds.
abbrev pub zero_stack : ℕ → ℕ → M (Unit {0})
zero_stack p n m = elim m.build [
  | alpha ↦
      if p == 0
      then halts undefined
      else if leb m.block.base p && ltb p (m.block.base + m.memory.n_bytes)
      then if within m.block p n
        then returns tt (with_bytes (fill_bytes m.bytes p n) m)
        else halts undefined
      else halts fatal
  | beta ↦ returns tt m
  | release ↦ returns tt m
]

-- enter_t::interpret. `words` locals are reserved below the saved return address and frame.
unfoldable pub interpret_enter : ℕ → ℕ → M (Unit {0})
interpret_enter rd words = do
  sp0 ← read_integer_register sp
  r31 ← read_integer_register retadr
  rd0 ← read_integer_register rd
  let ra_at = sub32 sp0 4
  let rd1 = sub32 ra_at 4
  let sp1 = sub32 rd1 (uint32 (words * 4))
  write ra_at r31 4
  unless_raised (write rd1 rd0 4)
  unless_raised (do write_integer_register sp sp1; write_integer_register rd rd1)
  unless_raised (do zero_stack sp1 (uint32 (words * 4)); increment_pc 1)

-- leave_t::interpret. `words` words of arguments are removed above the saved return address.
unfoldable pub interpret_leave : ℕ → ℕ → M (Unit {0})
interpret_leave rd words = do
  rd0 ← read_integer_register rd
  rd1 ← read rd0 false 4
  raised ← exception_raised
  let ra_at = add32 rd0 4
  r31 ← if raised then pure 0 else read ra_at false 4
  unless_raised (do
    write_integer_register retadr r31
    write_integer_register rd rd1
    write_integer_register sp (add32 (add32 ra_at 4) (uint32 (words * 4)))
    increment_pc 1)

module _ (fp : Ieee) where
  unfoldable pub interpret_stack : Stack → M (Unit {0})
  unfolding interpret_enter interpret_leave push_word pop_word
  interpret_stack (enter rd words) = interpret_enter rd words
  interpret_stack (leave rd words) = interpret_leave rd words
  interpret_stack (push rd) = do
    val ← read_integer_register rd
    push_word val
    unless_raised (increment_pc 1)
  interpret_stack (pushf rd) = do
    rvalue ← read_real_register rd
    push_word (fp.to_float rvalue)
    unless_raised (increment_pc 1)
  interpret_stack (pushd rd) = do
    value ← read_real_register rd
    push_word (decompose_hi value)
    unless_raised (push_word (decompose_lo value))
    unless_raised (increment_pc 1)
  interpret_stack (pop rd) = do
    value ← pop_word
    unless_raised (do write_integer_register rd value; increment_pc 1)
  interpret_stack (popf rd) = do
    v ← pop_word
    unless_raised (do write_real_register rd (fp.of_float v); increment_pc 1)
  interpret_stack (popd rd) = do
    lo ← pop_word
    raised ← exception_raised
    hi ← if raised then pure 0 else pop_word
    unless_raised (do write_real_register rd (recompose_double lo hi); increment_pc 1)

-- loader/skl_stack_opc.h.
unfoldable pub op_stack : ℕ → M Stack
unfolding field
op_stack inst =
    let opc = field inst 4 0 in
    let rd = field inst 25 21 in
    let words = field inst 20 5 in
    if opc == 0
    then pure (enter rd words)
    else if opc == 1
    then pure (leave rd words)
    else if opc == 2
    then pure (push rd)
    else if opc == 3
    then pure (pushf rd)
    else if opc == 4
    then pure (pushd rd)
    else if opc == 5
    then pure (pop rd)
    else if opc == 6
    then pure (popf rd)
    else if opc == 7
    then pure (popd rd)
    else halt not_implemented
