-- ===== src/Instruction/RegMem/LoadStored.antt =====
-- loader/skl_reg_mem.cpp: an integer that is stored is loaded, at each width.
use oberon.Prelude.{ℕ, ◌%◌, ◌^◌, ◌≡◌, ◌∙◌, refl, arith, true, false, Bool}
use oberon.Prelude.Word.{uint8, uint16, add32, int8, int16, pattern32}
use oberon.Ieee.{Ieee}
use oberon.Machine.State.{Machine, returns, ◌>>◌, returns->>}
use oberon.Machine.Register.{with_pc, with_integer}
use oberon.Machine.Memory.{address_valid, load1, load2, load4, store1, store2, store4, with_bytes}
use oberon.Machine.Bounds.{HasMemory, InMemory}
use oberon.Machine.RoundTrip.{load1-store1, load2-store2, load4-store4}
use oberon.Instruction.RegMem.{
  Width, byte, half, word, sizeof, LoadStore, load_int, store_int, load_int_at, store_int_at,
  interpret_reg_mem, compute_effective_address,
}

-- The bytes after a store, and the register after a load.
abbrev pub store_bytes : Width → (ℕ → ℕ) → ℕ → ℕ → ℕ → ℕ
store_bytes byte bytes ea v = store1 bytes ea (uint8 v)
store_bytes half bytes ea v = store2 bytes ea (uint16 v)
store_bytes word bytes ea v = store4 bytes ea v

abbrev pub loaded : Width → Bool → (ℕ → ℕ) → ℕ → ℕ
loaded byte true bytes ea = pattern32 (int8 (load1 bytes ea))
loaded byte false bytes ea = load1 bytes ea
loaded half true bytes ea = pattern32 (int16 (load2 bytes ea))
loaded half false bytes ea = load2 bytes ea
loaded word sign_extend bytes ea = load4 bytes ea

-- The value of the low byte, half or word of a register, with its sign or with zeros above.
abbrev pub narrowed : Width → Bool → ℕ → ℕ
narrowed byte true v = pattern32 (int8 v)
narrowed byte false v = v % 2 ^ 8
narrowed half true v = pattern32 (int16 v)
narrowed half false v = v % 2 ^ 16
narrowed word sign_extend v = v % 2 ^ 32

loaded-store_bytes :
    (width : Width) (s : Bool) (bytes : ℕ → ℕ) (ea v : ℕ)
    → loaded width s (store_bytes width bytes ea v) ea ≡ narrowed width s v
loaded-store_bytes byte true bytes ea v = rw (load1-store1 bytes ea (uint8 v)) (ground arith)
loaded-store_bytes byte false bytes ea v = rw (load1-store1 bytes ea (uint8 v)) (ground arith)
loaded-store_bytes half true bytes ea v = rw (load2-store2 bytes ea (uint16 v)) (ground arith)
loaded-store_bytes half false bytes ea v = rw (load2-store2 bytes ea (uint16 v)) (ground arith)
loaded-store_bytes word true bytes ea v = load4-store4 bytes ea v
loaded-store_bytes word false bytes ea v = load4-store4 bytes ea v

module _ (m : Machine) (has : HasMemory m) (ea : ℕ) where
  open has use {not_nil, below, above, small}

  valid : (size : ℕ) → InMemory m.memory ea size → address_valid m.memory ea size ≡ true
  valid size inside = ground arith

  store_lem :
      (width : Width) (v : ℕ)
      → InMemory m.memory ea (sizeof width)
      → store_int_at width v ea m
        ≡ returns tt (with_pc (add32 m.cpu.pc 8) (with_bytes (store_bytes width m.bytes ea v) m))
  unfolding store_int_at
  store_lem byte v inside = rw (valid 1 inside) (ground arith)
  store_lem half v inside = rw (valid 2 inside) (ground arith)
  store_lem word v inside = rw (valid 4 inside) (ground arith)

  load_lem :
      (width : Width) (s : Bool) (rd : ℕ)
      → InMemory m.memory ea (sizeof width)
      → load_int_at width s rd ea m
        ≡ returns tt (with_pc (add32 m.cpu.pc 8) (with_integer rd (loaded width s m.bytes ea) m))
  unfolding load_int_at
  load_lem byte true rd inside = rw (valid 1 inside) (ground arith)
  load_lem byte false rd inside = rw (valid 1 inside) (ground arith)
  load_lem half true rd inside = rw (valid 2 inside) (ground arith)
  load_lem half false rd inside = rw (valid 2 inside) (ground arith)
  load_lem word true rd inside = rw (valid 4 inside) (ground arith)
  load_lem word false rd inside = rw (valid 4 inside) (ground arith)

-- A load or a store of register `rd` with the operands of an address.
abbrev pub operands : (rd rbase rindex scale offset : ℕ) → LoadStore
operands rd rbase rindex scale offset = record {
  rd = rd;
  rbase = rbase;
  rindex = rindex;
  scale = scale;
  offset = offset;
}

module _ (fp : Ieee) (m : Machine) (has : HasMemory m) (width : Width) (s : Bool)
    (rs rd rbase rindex scale offset : ℕ) where
  abbrev pub ea : ℕ
  ea = compute_effective_address (m.cpu.r rbase) (m.cpu.r rindex) scale offset

  abbrev after_store : Machine
  after_store =
      with_pc (add32 m.cpu.pc 8) (with_bytes (store_bytes width m.bytes ea (m.cpu.r rs)) m)

  stores :
      InMemory m.memory ea (sizeof width)
      → interpret_reg_mem fp (store_int width (operands rs rbase rindex scale offset)) m
        ≡ returns tt after_store
  unfolding interpret_reg_mem
  stores inside = store_lem m has ea width (m.cpu.r rs) inside

  loads :
      InMemory m.memory ea (sizeof width)
      → interpret_reg_mem fp (load_int width s (operands rd rbase rindex scale offset)) after_store
        ≡ returns tt (
            with_pc
              (add32 (add32 m.cpu.pc 8) 8)
              (with_integer rd (narrowed width s (m.cpu.r rs)) after_store))
  unfolding interpret_reg_mem
  loads inside =
      load_lem after_store has ea width s rd inside
      ∙ rw (loaded-store_bytes width s m.bytes ea (m.cpu.r rs)) refl

  -- A store of a byte, a half or a word inside the memory and a load from the same operands leave
  -- in the loaded register the low part of the stored one, its sign extended or not as the load
  -- says, write no byte but the stored ones, and advance over both instructions.
  pub store_then_load :
      InMemory m.memory ea (sizeof width)
      → (interpret_reg_mem fp (store_int width (operands rs rbase rindex scale offset))
            >> interpret_reg_mem fp (load_int width s (operands rd rbase rindex scale offset)))
          m
        ≡ returns tt (
            with_pc
              (add32 (add32 m.cpu.pc 8) 8)
              (with_integer rd (narrowed width s (m.cpu.r rs)) after_store))
  store_then_load inside =
      returns->> (interpret_reg_mem fp (store_int width (operands rs rbase rindex scale offset)))
        (interpret_reg_mem fp (load_int width s (operands rd rbase rindex scale offset)))
        (stores inside)
      ∙ loads inside
