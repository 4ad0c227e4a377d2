-- ===== src/Machine/RoundTrip.antt =====
-- loader/skl.h: what is written to memory is read back, and other bytes keep their value.
use oberon.Prelude.{◌∙◌, ℕ, ◌+◌, ◌%◌, ◌^◌, ◌≤◌, ◌<◌, ◌≡◌, ◌⊎◌, refl, arith, false}
use oberon.Prelude.Tests.{◌==◌, if◌then◌else◌}
use oberon.Prelude.Word.{uint8}
use oberon.Machine.State.{returns->>, Machine, returns, ◌>>◌}
use oberon.Machine.Memory.{load1, load2, load4, store1, store2, store4, with_bytes, read, write}
use oberon.Machine.Bounds.{HasMemory, InMemory, read_word, write_word}

module _ (bytes : ℕ → ℕ) (p v : ℕ) where
  store1_at : (q : ℕ) → store1 bytes p v q ≡ (if q == p then uint8 v else bytes q)
  store1_at q = refl

  pub load1-store1 : load1 (store1 bytes p v) p ≡ v % 2 ^ 8
  load1-store1 = ground arith

  pub load2-store2 : load2 (store2 bytes p v) p ≡ v % 2 ^ 16
  load2-store2 = ground arith

  pub load4-store4 : load4 (store4 bytes p v) p ≡ v % 2 ^ 32
  load4-store4 = ground arith

  -- Bytes outside [p, p + 4) are not touched.
  pub store4_outside : (q : ℕ) → ((q < p) ⊎ (p + 4 ≤ q)) → store4 bytes p v q ≡ bytes q
  store4_outside q h = ground arith

  -- A word apart from [p, p + 4) is not touched.
  pub load4-store4_apart :
      (q : ℕ) → ((q + 4 ≤ p) ⊎ (p + 4 ≤ q)) → load4 (store4 bytes p v) q ≡ load4 bytes q
  load4-store4_apart q h =
      rw
        (
          store4_outside q (ground arith),
          store4_outside (q + 1) (ground arith),
          store4_outside (q + 2) (ground arith),
          store4_outside (q + 3) (ground arith),
        )
        refl

-- The machine after a word is written at `ea`.
abbrev pub stored : ℕ → ℕ → Machine → Machine
stored ea v m = with_bytes (store4 m.bytes ea v) m

-- A word that is written inside the memory is read back, every word apart from it keeps its value,
-- and neither access raises a trap or changes a register.
pub write-read :
    (m : Machine) (has : HasMemory m) (ea q v : ℕ)
    → InMemory m.memory ea 4
    → InMemory m.memory q 4
    → ((q + 4 ≤ ea) ⊎ (ea + 4 ≤ q))
    → ((write ea v 4 >> read ea false 4) m ≡ returns (v % 2 ^ 32) (stored ea v m))
      × ((write ea v 4 >> read q false 4) m ≡ returns (load4 m.bytes q) (stored ea v m))
write-read m has ea q v in_ea in_q apart = (same, other)
  where
    same : (write ea v 4 >> read ea false 4) m ≡ returns (v % 2 ^ 32) (stored ea v m)
    same =
        returns->> (write ea v 4) (read ea false 4) (write_word m has ea v in_ea)
        ∙ (read_word (stored ea v m) has ea in_ea ∙ rw (load4-store4 m.bytes ea v) refl)

    other : (write ea v 4 >> read q false 4) m ≡ returns (load4 m.bytes q) (stored ea v m)
    other =
        returns->> (write ea v 4) (read q false 4) (write_word m has ea v in_ea)
        ∙ (read_word (stored ea v m) has q in_q ∙ rw (load4-store4_apart m.bytes ea v q apart) refl)
