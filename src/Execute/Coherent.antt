-- ===== src/Execute/Coherent.antt =====
-- loader/skl.cpp and loader/skl_instruction.cpp: the cache of instructions stays coherent with the code
-- of the program.
use oberon.Prelude.{
  ℕ, ◌+◌, ◌≤◌, ◌<◌, ◌≡◌, ◌≢◌, refl, sym, subst, ap, ◌∙◌, arith, Bool, true, false, Option, none,
  some, ◌^◌, inl, inr, not, ◌⊎◌,
}
use mathlib.Core.Option.{some-injective}
use oberon.Prelude.Tests.{◌==◌, if◌then◌else◌, Bool-cases}
use oberon.Machine.State.{
  BuildType, alpha, beta, release, Machine, Outcome, returns, halts, pure, bind,
}
use oberon.Decode.{Instruction}
use oberon.Execute.{
  Cache, Cached, Emulator, Run, running, stopped, then_run, heap_offset, cache_index, insert,
  is_stale, pointer_to,
}

-- The index is the distance of the address from the beginning of the block.
abbrev pub At : ℕ → Machine → Outcome ℕ → Type 0
At a m (returns k m') = (m' ≡ m) × (0 < a → m.block.base + k ≡ a)
At a m (halts h) = Unit {0}

pub cache_index-At :
    (a : ℕ) (m : Machine) (b : BuildType)
    → b ≢ release
    → m.block.base + m.memory.n_bytes ≤ 2 ^ 32
    → At a (record m { build = b }) (cache_index a (record m { build = b }))
unfolding cache_index heap_offset
cache_index-At a m alpha h small = ground arith
cache_index-At a m beta h small = ground arith
cache_index-At a m release h small = absurd (h refl)

-- The link leads to the object of the address, if this is not 0.
abbrev pub Linked : ℕ → Cache → Option ℕ → Type 0
Linked pc cache next =
    (k : ℕ) → next ≡ some k → (c : Cached) × (cache k ≡ some c) × (0 < pc → c.pc ≡ pc)

module _ (base : ℕ) (code : ℕ → Instruction) where
  -- An object at index `k` is the instruction of the code at its address, which is that of the index.
  abbrev pub IsObject : ℕ → Cached → Type 0
  IsObject k c = (base + k ≡ c.pc) × (c.body ≡ code c.pc)

  abbrev pub AreObjects : Cache → Type 0
  AreObjects cache = (k : ℕ) (c : Cached) → cache k ≡ some c → IsObject k c

  -- The objects of the cache are instructions of the code, and the next one is that at the program
  -- counter.
  pub record IsCoherent (e : Emulator) : Type 0 where
    pub objects : AreObjects e.cache
    pub next : Linked e.machine.cpu.pc e.cache e.next

pointed :
    (cache : Cache) (k j : ℕ)
    → pointer_to cache k ≡ some j
    → (c : Cached) × (k ≡ j) × (cache k ≡ some c)
pointed cache k j e = go (cache k) refl e
  where
    go :
        (o : Option Cached)
        → cache k ≡ o
        → (elim o [ none ↦ none | some c ↦ some k ]) ≡ some j
        → (c : Cached) × (k ≡ j) × (cache k ≡ some c)
    go none q e = absurd (ground arith)
    go (some c) q e = (c, some-injective k j e, q)

-- If the loop runs on, it is in a state of `Q`.
abbrev pub Holds : (Emulator → Type 0) → Run → Type 0
Holds Q (running e) = Q e
Holds Q (stopped h) = Unit {0}

pub Holds-then_run :
    {A : Type 0} (Q : Emulator → Type 0) (o : Outcome A) (k : A → Machine → Run)
    → ((a : A) (m : Machine) → o ≡ returns a m → Holds Q (k a m))
    → Holds Q (then_run o k)
Holds-then_run Q (returns a m) k h = h a m refl
Holds-then_run Q (halts e) k h = tt

pub Holds-if :
    (Q : Emulator → Type 0) (b : Bool) (x y : Run)
    → (b ≡ true → Holds Q x)
    → (b ≡ false → Holds Q y)
    → Holds Q (if b then x else y)
Holds-if Q true x y hx hy = hx refl
Holds-if Q false x y hx hy = hy refl

equal_of : (a b : ℕ) → not (a == b) ≡ false → a ≡ b
equal_of a b e = ground arith

equal_true : (a b : ℕ) → (a == b) ≡ true → a ≡ b
equal_true a b e = ground arith

insert_cases :
    (cache : Cache) (k j : ℕ) (c d : Cached)
    → insert cache k c j ≡ some d
    → ((k ≡ j) × (c ≡ d)) ⊎ (cache j ≡ some d)
insert_cases cache k j c d e = elim (Bool-cases (k == j)) [
  | inl same ↦ inl (
    equal_true k j same,
    some-injective c d (subst (λ b. (if b then some c else cache j) ≡ some d) same e),
  )
  | inr other ↦ inr (subst (λ b. (if b then some c else cache j) ≡ some d) other e)
]

module _ (base : ℕ) (code : ℕ → Instruction) where
  pub AreObjects-insert :
      (cache : Cache) (k : ℕ) (c : Cached)
      → AreObjects base code cache
      → IsObject base code k c
      → AreObjects base code (insert cache k c)
  AreObjects-insert cache k c are is j d e = elim (insert_cases cache k j c d e) [
    | inl (same, q) ↦ subst (IsObject base code j) q (subst (λ i. IsObject base code i c) same is)
    | inr other ↦ are j d other
  ]

-- A link stays right when the link of an object is replaced.
pub Linked-insert :
    (pc : ℕ) (cache : Cache) (k : ℕ) (c : Cached) (next q : Option ℕ)
    → cache k ≡ some c
    → Linked pc cache next
    → Linked pc (insert cache k (record c { next = q })) next
Linked-insert pc cache k c next q found linked j e =
    let (d, at, right) = linked j e in
    elim (Bool-cases (k == j)) [
      | inl same ↦ (
        record c { next = q },
        rw same refl,
        λ positive.
            ap (λ x. x.pc) (some-injective c d (sym found ∙ (ap cache (equal_true k j same) ∙ at)))
            ∙ right positive,
      )
      | inr other ↦ (d, rw other at, right)
    ]

abbrev pub Found : Cache → ℕ → Machine → Outcome (Option ℕ) → Type 0
Found cache a m (returns next m') = (m' ≡ m) × Linked a cache next
Found cache a m (halts h) = Unit {0}

module _ (base : ℕ) (code : ℕ → Instruction) (cache : Cache)
    (are : AreObjects base code cache) where
  -- The machine has the block and stops where an assertion fails.
  pub found_lem :
      (a : ℕ) (m : Machine) (o : Outcome ℕ)
      → m.block.base ≡ base
      → At a m o
      → Found cache a m (bind o (λ k. pure (pointer_to cache k)))
  found_lem a m (halts h) based at = tt
  found_lem a m (returns k m') based (same, at) = (
    same,
    λ j e.
        let (c, q, found) = pointed cache k j e in
        (
          c,
          subst (λ i. cache i ≡ some c) q found,
          λ positive. sym (are k c found).0 ∙ (ap (λ b. b + k) (sym based) ∙ at positive),
        ),
  )

  -- A link of an object that is not stale.
  pub fresh : (pc : ℕ) (next : Option ℕ) → is_stale cache next pc ≡ false → Linked pc cache next
  fresh pc none e = absurd (true_false e)
    where
      true_false : true ≡ false → ⊥
      true_false e = ground arith
  fresh pc (some k) e = λ j q. subst (At_index) (some-injective k j q) (go (cache k) refl e)
    where
      At_index : ℕ → Type 0
      At_index i = (c : Cached) × (cache i ≡ some c) × (0 < pc → c.pc ≡ pc)

      go :
          (o : Option Cached)
          → cache k ≡ o
          → (elim o [ none ↦ true | some c ↦ not (c.pc == pc) ]) ≡ false
          → At_index k
      go none q e = absurd (ground arith)
      go (some c) q e = (c, q, λ positive. equal_of c.pc pc e)

pub insert_at : (cache : Cache) (k : ℕ) (c : Cached) → insert cache k c k ≡ some c
insert_at cache k c = rw (equal_self k) refl
  where
    equal_self : (k : ℕ) → (k == k) ≡ true
    equal_self k = ground arith
