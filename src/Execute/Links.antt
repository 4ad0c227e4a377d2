-- ===== src/Execute/Links.antt =====
-- loader/skl.cpp: a round of the loop keeps the cache of instructions coherent.
use oberon.Prelude.{
  ℕ, ◌+◌, ◌≤◌, ◌<◌, ◌^◌, ◌≡◌, ◌≢◌, refl, sym, subst, ap, ◌∙◌, Bool, true, false, none, some,
}
use oberon.Ieee.{Ieee}
use oberon.Machine.State.{
  BuildType, alpha, beta, release, assertion, M, Machine, Outcome, returns, halts, pure, undefined,
  assert, bind, ◌>>◌,
}
use oberon.Machine.Keeps.{Keeps, Place, place, Stays, Keeps-then}
use oberon.Machine.Unmoved.{memory_rules}
use oberon.Decode.{Instruction, interpret, fetch_and_decode}
use oberon.Execute.{
  Cache, Cached, Emulator, stopped, then_run, cache_index, is_null, pointer_to, lookup_instruction,
  cache_instruction, insert, is_stale, link_next, interpret_cached, fetch_round,
}
use oberon.Execute.Unmoved.{Keeps-interpret}
use oberon.Execute.Coherent.{
  At, cache_index-At, Found, found_lem, fresh, AreObjects, AreObjects-insert, Linked, Linked-insert,
  IsCoherent, Holds, Holds-then_run, Holds-if, insert_at,
}
use oberon.Execute.Processor.{executed}

At-asserted :
    (a k : ℕ) (m m' : Machine) (b : Bool)
    → (m' ≡ m) × (0 < a → m.block.base + k ≡ a)
    → At a m ((assert b >> pure k) m')
At-asserted a k m m' true at = at
At-asserted a k m m' false at = in_build m'.build
  where
    in_build :
        (t : BuildType)
        → At a m (
            bind
              (elim t [
                | release ↦ returns tt m'
                | alpha ↦ halts assertion
                | beta ↦ halts assertion
              ])
              (λ _. pure k))
    in_build release = at
    in_build alpha = tt
    in_build beta = tt

At-bind :
    (cache : Cache) (a : ℕ) (m : Machine) (o : Outcome ℕ)
    → At a m o
    → At a m (bind o (λ k. assert (is_null (pointer_to cache k)) >> pure k))
At-bind cache a m (halts h) at = tt
At-bind cache a m (returns k m') at = At-asserted a k m m' (is_null (pointer_to cache k)) at

module _ (fp : Ieee) (service : ℕ → ℕ → M (Unit {0})) (kept : (a b : ℕ) → Keeps (service a b))
    (p : Place) (asserts : p.build ≢ release) (small : p.block.base + p.memory.n_bytes ≤ 2 ^ 32)
    (code : ℕ → Instruction) where
  At-index : (a : ℕ) (m : Machine) → place m ≡ p → At a m (cache_index a m)
  At-index a m here =
      cache_index-At a m m.build (subst (λ q. q.build ≢ release) (sym here) asserts)
        (subst (λ q. q.block.base + q.memory.n_bytes ≤ 2 ^ 32) (sym here) small)

  module _ (cache : Cache) (are : AreObjects p.block.base code cache) where
    lookup_lem :
        (a : ℕ) (m : Machine) → place m ≡ p → Found cache a m (lookup_instruction cache a m)
    unfolding lookup_instruction
    lookup_lem a m here =
        found_lem p.block.base code cache are a m (cache_index a m) (ap (λ q. q.block.base) here)
          (At-index a m here)

    cache_lem : (a : ℕ) (m : Machine) → place m ≡ p → At a m (cache_instruction cache a m)
    unfolding cache_instruction
    cache_lem a m here = At-bind cache a m (cache_index a m) (At-index a m here)

  -- Where the loop runs on, its machine satisfies `P` and its cache is coherent.
  abbrev pub Goes : (Machine → Type 0) → Emulator → Type 0
  Goes P e = P e.machine × IsCoherent p.block.base code e

  link_lem :
      (P : Machine → Type 0) (cache : Cache) (k : ℕ) (c : Cached) (m : Machine)
      → AreObjects p.block.base code cache
      → cache k ≡ some c
      → place m ≡ p
      → P m
      → Holds (Goes P) (link_next fp service cache k c m)
  unfolding link_next
  link_lem P cache k c m are found here holds =
      Holds-if (Goes P) (is_stale cache c.next m.cpu.pc) _ _
        (λ stale. Holds-then_run (Goes P) (lookup_instruction cache m.cpu.pc m) _ (λ next m' e.
          let (same, linked) =
            subst (Found cache m.cpu.pc m) e (lookup_lem cache are m.cpu.pc m here) in
          (
            subst P (sym same) holds,
            record {
              objects =
                  AreObjects-insert p.block.base code cache k (record c { next = next }) are
                    (are k c found);
              next =
                  subst (λ x. Linked x.cpu.pc (insert cache k (record c { next = next })) next)
                    (sym same) (Linked-insert m.cpu.pc cache k c next next found linked);
            },
          )))
        (λ current. (
          holds,
          record {
            objects = are;
            next = fresh p.block.base code cache are m.cpu.pc c.next current;
          },
        ))

  pub interpret_lem :
      (P : Machine → Type 0) (cache : Cache) (k : ℕ) (c : Cached) (m : Machine)
      → AreObjects p.block.base code cache
      → cache k ≡ some c
      → place m ≡ p
      → ((m' : Machine) → executed fp service c.body m ≡ returns tt m' → place m' ≡ p → P m')
      → Holds (Goes P) (interpret_cached fp service cache k m)
  unfolding interpret_cached
  interpret_lem P cache k c m are found here onward =
      subst
        (λ o. Holds (Goes P) (elim o [
          | none ↦ stopped undefined
          | some c ↦
              then_run (executed fp service c.body m) (λ _ m'. link_next fp service cache k c m')
        ]))
        (sym found)
        (Holds-then_run (Goes P) (executed fp service c.body m) _ (λ _ m' e.
          let here' = subst (Stays p) e (stays.at p m here) in
          link_lem P cache k c m' are found here' (onward m' e here')))
    where
      stays : Keeps (executed fp service c.body)
      stays =
          Keeps-then (interpret fp service c.body) _ (Keeps-interpret fp service kept c.body)
            (search memory_rules)

  pub fetch_lem :
      (P : Machine → Type 0) (cache : Cache) (m : Machine)
      → AreObjects p.block.base code cache
      → place m ≡ p
      → 0 < m.cpu.pc
      → fetch_and_decode fp m ≡ returns (some (code m.cpu.pc)) m
      → ((m' : Machine)
          → executed fp service (code m.cpu.pc) m ≡ returns tt m'
          → place m' ≡ p
          → P m')
      → Holds (Goes P) (fetch_round fp service cache m)
  unfolding fetch_round
  fetch_lem P cache m are here positive fetched onward = rw fetched (
      Holds-then_run (Goes P) (cache_instruction cache m.cpu.pc m) _ (λ k m' e.
        let (same, at) = subst (At m.cpu.pc m) e (cache_lem cache are m.cpu.pc m here) in
        let c : Cached = record { pc = m.cpu.pc; body = code m.cpu.pc; next = none } in
        let based = ap (λ q. q.block.base + k) here in
        subst (λ x. Holds (Goes P) (interpret_cached fp service (insert cache k c) k x)) (sym same)
          (interpret_lem P (insert cache k c) k c m
            (AreObjects-insert p.block.base code cache k c are (sym based ∙ at positive, refl))
            (insert_at cache k c) here onward)))
