-- ===== src/Instruction/UnmovedMemory.antt =====
-- loader/skl_int_reg.cpp, loader/skl_bit_test.cpp, loader/skl_reg_mem.cpp and loader/skl_stack.cpp: no
-- instruction on memory moves the memory or changes the build.
use oberon.Prelude.{ℕ, Bool, none, some, ◌&&◌, ◌+◌}
use oberon.Prelude.Tests.{◌==◌, leb, ltb}
use oberon.Ieee.{Ieee}
use oberon.Machine.State.{BuildType, alpha, beta, release, undefined, Outcome, defined, ◌>>◌}
use oberon.Machine.Memory.{address_valid, within, Haddr}
use oberon.Machine.Keeps.{
  Keeps, Stays, Place, Stays-if, Keeps-defined, Keeps-halt, Keeps-test, Keeps-bind, Keeps-then,
}
use oberon.Machine.Unmoved.{memory_rules, Keeps-valid}
use oberon.Machine.Register.{write_integer_register, increment_pc}
use oberon.Machine.Trap.{hardware_trap, out_of_bounds_read}
use oberon.Instruction.IntReg.{
  IntReg, IntRegOpc, length_at, cmps, rot, int_reg_body, interpret_int_reg, strlen, strcmp,
  compared_flags, opc_and, opc_ash, opc_bitset, opc_cmps, opc_lsh, opc_nor, opc_or, opc_rot,
  opc_xor,
}
use oberon.Instruction.BitTest.{
  BitTest, BitAction, on_register, on_memory, clear_memory, set_memory, bit_test_memory_read,
  bit_test_memory_clear, bit_test_memory_set, bit_epilog, bit_body, interpret_bit_test,
}
use oberon.Instruction.RegMem.{
  RegMem, LoadStore, Width, byte, half, word, lwi, lfi, ldi, load_int, store_int, load_real,
  store_real, la, read_little_endian_float, read_little_endian_double, write_little_endian_float,
  write_little_endian_double, effective_address, read_width, write_width, load_int_at, store_int_at,
  load_real_at, store_real_at, interpret_reg_mem,
}
use oberon.Instruction.Stack.{
  Stack, enter, leave, push, pushf, pushd, pop, popf, popd, push_word, pop_word, zero_stack,
  interpret_enter, interpret_leave, interpret_stack,
}

Keeps-length_at : (p : Haddr) → Keeps (length_at p)
Keeps-length_at none = search memory_rules
Keeps-length_at (some p) =
    Keeps-test (λ m. leb m.block.base p) (λ m. defined (strlen m.bytes p _)) _
      (λ m. Keeps-defined _) (λ m. Keeps-halt undefined)

Keeps-cmps : (i : IntReg) (l r : ℕ) → Keeps (cmps i l r)
unfolding cmps
Keeps-cmps i l r = Keeps-bind _ _ (Keeps-length_at _) (λ a. Keeps-bind _ _ (Keeps-length_at _) (λ b.
    Keeps-test (λ m. address_valid m.memory l (a + 1) && address_valid m.memory r (b + 1))
      (λ m. (do
        write_integer_register i.rd (compared_flags (strcmp m.bytes l r (a + 1)))
        increment_pc 1))
      (λ m. hardware_trap out_of_bounds_read) (λ m. search memory_rules)
      (λ m. search memory_rules)))

Keeps-rot : (l r : ℕ) → Keeps (rot l r)
unfolding rot
Keeps-rot l r = search memory_rules

Keeps-int_reg_body : (o : IntRegOpc) (i : IntReg) (l r : ℕ) → Keeps (int_reg_body o i l r)
unfolding int_reg_body
Keeps-int_reg_body opc_and i l r = search memory_rules
Keeps-int_reg_body opc_ash i l r = search memory_rules
Keeps-int_reg_body opc_bitset i l r = search memory_rules
Keeps-int_reg_body opc_cmps i l r = Keeps-cmps i l r
Keeps-int_reg_body opc_lsh i l r = search memory_rules
Keeps-int_reg_body opc_nor i l r = search memory_rules
Keeps-int_reg_body opc_or i l r = search memory_rules
Keeps-int_reg_body opc_rot i l r = search (memory_rules, Keeps-rot)
Keeps-int_reg_body opc_xor i l r = search memory_rules

pub Keeps-interpret_int_reg : (i : IntReg) → Keeps (interpret_int_reg i)
unfolding interpret_int_reg
Keeps-interpret_int_reg i = search (memory_rules, Keeps-int_reg_body) depth 10

Keeps-bit_epilog : (i : BitTest) (b : ℕ) → Keeps (bit_epilog i b)
unfolding bit_epilog
Keeps-bit_epilog i b = search memory_rules depth 10

Keeps-bit_test_memory_read : (a b : ℕ) → Keeps (bit_test_memory_read a b)
unfolding bit_test_memory_read
Keeps-bit_test_memory_read a b = search memory_rules depth 10

Keeps-bit_test_memory_clear : (a b : ℕ) → Keeps (bit_test_memory_clear a b)
unfolding bit_test_memory_clear
Keeps-bit_test_memory_clear a b = search memory_rules depth 10

Keeps-bit_test_memory_set : (a b : ℕ) → Keeps (bit_test_memory_set a b)
unfolding bit_test_memory_set
Keeps-bit_test_memory_set a b = search memory_rules depth 10

Keeps-bit_body : (o : BitAction) (i : BitTest) (b v : ℕ) → Keeps (bit_body o i b v)
unfolding bit_body
Keeps-bit_body on_register i b v = search memory_rules
Keeps-bit_body on_memory i b v = search (memory_rules, Keeps-bit_test_memory_read, Keeps-bit_epilog)
Keeps-bit_body clear_memory i b v =
    search (memory_rules, Keeps-bit_test_memory_clear, Keeps-bit_epilog)
Keeps-bit_body set_memory i b v = search (memory_rules, Keeps-bit_test_memory_set, Keeps-bit_epilog)

pub Keeps-interpret_bit_test : (i : BitTest) → Keeps (interpret_bit_test i)
unfolding interpret_bit_test
Keeps-interpret_bit_test i = search (memory_rules, Keeps-bit_body) depth 10

pub Keeps-read_little_endian_float : (a : ℕ) → Keeps (read_little_endian_float a)
unfolding read_little_endian_float
Keeps-read_little_endian_float a = Keeps-valid a 4 _ _ (search memory_rules) (search memory_rules)

pub Keeps-read_little_endian_double : (a : ℕ) → Keeps (read_little_endian_double a)
unfolding read_little_endian_double
Keeps-read_little_endian_double a =
    Keeps-valid a 8 _ _ (search memory_rules depth 10) (search memory_rules)

Keeps-write_little_endian_float : (a v : ℕ) → Keeps (write_little_endian_float a v)
unfolding write_little_endian_float
Keeps-write_little_endian_float a v =
    Keeps-valid a 4 _ _ (search memory_rules) (search memory_rules)

Keeps-write_little_endian_double : (a v : ℕ) → Keeps (write_little_endian_double a v)
unfolding write_little_endian_double
Keeps-write_little_endian_double a v =
    Keeps-valid a 8 _ _ (search memory_rules depth 10) (search memory_rules)

Keeps-effective_address : (i : LoadStore) → Keeps (effective_address i)
unfolding effective_address
Keeps-effective_address i = search memory_rules depth 10

Keeps-read_width : (w : Width) (b : Bool) (p : Haddr) → Keeps (read_width w b p)
unfolding read_width
Keeps-read_width byte b p = search memory_rules
Keeps-read_width half b p = search memory_rules
Keeps-read_width word b p = search memory_rules

Keeps-write_width : (w : Width) (p : Haddr) (v : ℕ) → Keeps (write_width w p v)
unfolding write_width
Keeps-write_width byte p v = search memory_rules
Keeps-write_width half p v = search memory_rules
Keeps-write_width word p v = search memory_rules

Keeps-load_int_at : (w : Width) (b : Bool) (rd a : ℕ) → Keeps (load_int_at w b rd a)
unfolding load_int_at
Keeps-load_int_at w b rd a =
    Keeps-valid a _ _ _ (Keeps-bind _ _ (Keeps-read_width w b _) (λ v. search memory_rules))
      (search memory_rules)

Keeps-store_int_at : (w : Width) (v a : ℕ) → Keeps (store_int_at w v a)
unfolding store_int_at
Keeps-store_int_at w v a =
    Keeps-valid a _ _ _ (Keeps-then _ _ (Keeps-write_width w _ v) (search memory_rules))
      (search memory_rules)

Keeps-push_word : (v : ℕ) → Keeps (push_word v)
unfolding push_word
Keeps-push_word v = search memory_rules depth 12

Keeps-pop_word : Keeps pop_word
unfolding pop_word
Keeps-pop_word = search memory_rules depth 12

Stays-build :
    (q : Place) (b : BuildType) (o o' : Outcome (Unit {0}))
    → Stays q o
    → Stays q o'
    → Stays q (elim b [ alpha ↦ o | beta ↦ o' | release ↦ o' ])
Stays-build q alpha o o' s s' = s
Stays-build q beta o o' s s' = s'
Stays-build q release o o' s s' = s'

Keeps-zero_stack : (p n : ℕ) → Keeps (zero_stack p n)
Keeps-zero_stack p n = record {
  at = λ q m e.
      Stays-build q m.build _ _
        (Stays-if q (p == 0) _ _ tt (
          Stays-if q (leb m.block.base p && ltb p (m.block.base + m.memory.n_bytes)) _ _
            (Stays-if q (within m.block p n) _ _ e tt) tt))
        e;
}

ruleset stack_rules = (memory_rules, Keeps-push_word, Keeps-pop_word, Keeps-zero_stack)

Keeps-interpret_enter : (rd n : ℕ) → Keeps (interpret_enter rd n)
unfolding interpret_enter
Keeps-interpret_enter rd n = search stack_rules depth 16

Keeps-interpret_leave : (rd n : ℕ) → Keeps (interpret_leave rd n)
unfolding interpret_leave
Keeps-interpret_leave rd n = search stack_rules depth 16

module _ (fp : Ieee) where
  Keeps-load_real_at : (b : Bool) (rd a : ℕ) → Keeps (load_real_at fp b rd a)
  unfolding load_real_at
  Keeps-load_real_at b rd a =
      search (memory_rules, Keeps-read_little_endian_float, Keeps-read_little_endian_double) depth
        12

  Keeps-store_real_at : (b : Bool) (v a : ℕ) → Keeps (store_real_at fp b v a)
  unfolding store_real_at
  Keeps-store_real_at b v a =
      search (memory_rules, Keeps-write_little_endian_float, Keeps-write_little_endian_double) depth
        12

  pub Keeps-interpret_reg_mem : (i : RegMem) → Keeps (interpret_reg_mem fp i)
  unfolding interpret_reg_mem
  Keeps-interpret_reg_mem (lwi rd b c) = search memory_rules depth 10
  Keeps-interpret_reg_mem (lfi rd v) = search memory_rules
  Keeps-interpret_reg_mem (ldi rd v) = search memory_rules
  Keeps-interpret_reg_mem (load_int w s i) =
      search (memory_rules, Keeps-effective_address, Keeps-load_int_at)
  Keeps-interpret_reg_mem (store_int w i) =
      search (memory_rules, Keeps-effective_address, Keeps-store_int_at) depth 10
  Keeps-interpret_reg_mem (load_real d i) =
      search (memory_rules, Keeps-effective_address, Keeps-load_real_at)
  Keeps-interpret_reg_mem (store_real d i) =
      search (memory_rules, Keeps-effective_address, Keeps-store_real_at) depth 10
  Keeps-interpret_reg_mem (la i) = search (memory_rules, Keeps-effective_address) depth 10

  pub Keeps-interpret_stack : (i : Stack) → Keeps (interpret_stack fp i)
  unfolding interpret_stack
  Keeps-interpret_stack (enter rd n) = Keeps-interpret_enter rd n
  Keeps-interpret_stack (leave rd n) = Keeps-interpret_leave rd n
  Keeps-interpret_stack (push rd) = search stack_rules depth 12
  Keeps-interpret_stack (pushf rd) = search stack_rules depth 12
  Keeps-interpret_stack (pushd rd) = search stack_rules depth 12
  Keeps-interpret_stack (pop rd) = search stack_rules depth 12
  Keeps-interpret_stack (popf rd) = search stack_rules depth 12
  Keeps-interpret_stack (popd rd) = search stack_rules depth 12
