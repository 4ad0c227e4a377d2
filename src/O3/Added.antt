-- ===== src/O3/Added.antt =====
-- loader/o3.cpp: a module is added at the end of the list.
use oberon.Prelude.{
  false, ℕ, zero, suc, ◌+◌, ◌^◌, ◌≤◌, ◌<◌, ◌≡◌, refl, ◌∙◌, arith, List, [], ◌∷◌, ◌++◌,
}
use oberon.Prelude.Text.{length}
use oberon.Prelude.Tests.{◌==◌}
use oberon.Machine.State.{Machine, returns}
use oberon.Machine.Memory.{load4, store4, with_bytes}
use oberon.Machine.RoundTrip.{load4-store4, load4-store4_apart}
use oberon.Heap.Allocated.{heap_address_lem, write_4_lem}
use oberon.O3.Layout.{next, set_field}
use oberon.O3.Loader.{Loader, did}
use oberon.O3.Modules.{last_module, add_module, list_fuel}
use oberon.O3.Chain.{Chain, IsMapped, Modules, first_lem, next_lem, Chain-length}

-- The last of `x` and `xs`.
abbrev pub last_of : ℕ → List ℕ → ℕ
last_of x [] = x
last_of x (y ∷ ys) = last_of y ys

abbrev pub with_machine : Machine → Loader → Loader
with_machine m l = record l { machine = m }

module _ (l : Loader) (is : IsMapped l.machine) where
  abbrev m : Machine
  m = l.machine

  abbrev hi : ℕ
  hi = m.block.base + m.memory.n_bytes

  last_module_lem :
      (n x : ℕ) (xs : List ℕ)
      → m.block.base ≤ x
      → x + 64 ≤ hi
      → Chain m.bytes (x + 64) hi (load4 m.bytes x) xs
      → length xs < n
      → last_module n x l ≡ did (last_of x xs) l
  unfolding last_module
  last_module_lem zero x xs from fits chain enough = absurd (omega arith)
  last_module_lem (suc n) x [] from fits e enough = rw (next_lem m is x from fits, e) refl
  last_module_lem (suc n) x (y ∷ ys) from fits (e, above, inside, chain) enough =
      rw
        (
          next_lem m is x from fits,
          ahead,
          first_lem m is (x + 64) (load4 m.bytes x) (y ∷ ys) (omega arith)
              (e, above, inside, chain),
        )
        (last_module_lem n y ys (omega arith) inside chain (omega arith))
    where
      ahead : (load4 m.bytes x == 0) ≡ false
      ahead = ground (arith, is.positive)

-- The words `next` of the last module and of the new one.
abbrev pub linked : (ℕ → ℕ) → ℕ → ℕ → ℕ → ℕ
linked b last p = store4 (store4 b last p) p 0

last_above : (b : ℕ → ℕ) (hi a x : ℕ) (xs : List ℕ) → Chain b (x + 64) hi a xs → x ≤ last_of x xs
last_above b hi a x [] chain = omega arith
last_above b hi a x (y ∷ ys) (e, above, fits, chain) =
    omega (arith, last_above b hi (load4 b y) y ys chain)

module _ (b : ℕ → ℕ) (hi p : ℕ) (inside : p + 64 ≤ hi) (small : p < 2 ^ 32) where
  next_linked : (last : ℕ) → last + 64 ≤ p → load4 (linked b last p) last ≡ p
  next_linked last below =
      load4-store4_apart (store4 b last p) p 0 last (omega arith)
      ∙ load4-store4 b last p
      ∙ omega arith

  end_linked : (last : ℕ) → load4 (linked b last p) p ≡ 0
  end_linked last = load4-store4 (store4 b last p) p 0

  next_kept : (last q : ℕ) → q + 64 ≤ last → last + 64 ≤ p → load4 (linked b last p) q ≡ load4 b q
  next_kept last q before below =
      load4-store4_apart (store4 b last p) p 0 q (omega arith)
      ∙ load4-store4_apart b last p q (omega arith)

  Chain-linked :
      (lo a x : ℕ) (xs : List ℕ)
      → Chain b lo hi a (x ∷ xs)
      → last_of x xs + 64 ≤ p
      → Chain (linked b (last_of x xs) p) lo hi a (x ∷ (xs ++ (p ∷ [])))
  Chain-linked lo a x [] (e, above, fits, end) below =
      (e, above, fits, (next_linked x below, below, inside, end_linked x))
  Chain-linked lo a x (y ∷ ys) (e, above, fits, chain) below = (
    e,
    above,
    fits,
    rw
        (next_kept (last_of y ys) x
          (omega (arith, chain.1, last_above b hi (load4 b y) y ys chain.3)) below)
        (Chain-linked (x + 64) (load4 b x) y ys chain below),
  )

-- Every module of the list ends below `p`.
abbrev pub Below : List ℕ → ℕ → Type 0
Below [] p = Unit {0}
Below (x ∷ xs) p = last_of x xs + 64 ≤ p

-- The state with `p` behind the modules of the list.
abbrev pub added : ℕ → List ℕ → Loader → Loader
added p [] l = record l {
  machine = with_bytes (store4 l.machine.bytes p 0) l.machine;
  module_list = p;
}
added p (x ∷ xs) l = with_machine (with_bytes (linked l.machine.bytes (last_of x xs) p) l.machine) l

module _ (l : Loader) (is : IsMapped l.machine) (p : ℕ) (from : l.machine.block.base ≤ p)
    (inside : p + 64 ≤ l.machine.block.base + l.machine.memory.n_bytes) where
  open is use {positive, whole, small}

  set_next :
      (b : ℕ → ℕ) (q v : ℕ)
      → l.machine.block.base ≤ q
      → q + 64 ≤ l.machine.block.base + l.machine.memory.n_bytes
      → set_field q next v (with_bytes b l.machine)
        ≡ returns tt (with_bytes (store4 b q v) l.machine)
  set_next b q v above fits =
      rw at_zero (write_4_lem (with_bytes b l.machine) q v above (omega arith))
    where
      at_zero : q + 0 ≡ q
      at_zero = omega arith

  -- Where the modules of the list lie at growing addresses in a mapped memory and a new module
  -- lies behind them, add_module ends, writes the link of the last module, or the variable of the
  -- list if it is empty, and the link of the new module and nothing else, and the list then has
  -- the new module at its end.
  pub add_module-Modules :
      (xs : List ℕ)
      → Modules l.machine l.module_list xs
      → Below xs p
      → (add_module p l ≡ did tt (added p xs l))
        × Modules (added p xs l).machine (added p xs l).module_list (xs ++ (p ∷ []))
  unfolding add_module
  add_module-Modules [] chain below = (
    rw
        (
          first_lem l.machine is l.machine.block.base l.module_list [] (omega arith) chain,
          heap_address_lem l.machine p (omega arith) from (omega arith) (omega arith),
          set_next l.machine.bytes p 0 from inside,
        )
        refl,
    (refl, from, inside, load4-store4 l.machine.bytes p 0),
  )
  add_module-Modules (x ∷ xs) (e, above, fits, chain) below =
      let short =
        Chain-length l.machine.bytes (x + 64) (l.machine.block.base + l.machine.memory.n_bytes)
          (load4 l.machine.bytes x) xs fits chain in
      let last_from =
        last_above l.machine.bytes (l.machine.block.base + l.machine.memory.n_bytes)
          (load4 l.machine.bytes x) x xs chain in
      (
        rw
            (
              first_lem l.machine is l.machine.block.base l.module_list (x ∷ xs) (omega arith)
                  (e, above, fits, chain),
              last_module_lem l is (list_fuel l) x xs above fits chain (omega arith),
              heap_address_lem l.machine p (omega arith) from (omega arith) (omega arith),
              set_next l.machine.bytes (last_of x xs) p (omega arith) (omega arith),
              set_next (store4 l.machine.bytes (last_of x xs) p) p 0 from inside,
            )
            refl,
        Chain-linked l.machine.bytes (l.machine.block.base + l.machine.memory.n_bytes) p inside
            (omega arith) l.machine.block.base l.module_list x xs (e, above, fits, chain) below,
      )
