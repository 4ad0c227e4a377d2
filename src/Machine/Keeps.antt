-- ===== src/Machine/Keeps.antt =====
-- loader/skl.h and loader/skl.cpp: what no function of the emulator changes, with one rule for each
-- way to build a function.
use oberon.Prelude.{ℕ, ◌≡◌, ◌∙◌, Bool, true, false, Option, none, some}
use oberon.Prelude.Tests.{if◌then◌else◌}
use oberon.Machine.State.{
  Memory, HostBlock, BuildType, alpha, beta, release, Machine, Halt, assertion, Outcome, returns,
  halts, M, pure, halt, bind, ◌>>=◌, ◌>>◌, defined, assert,
}

-- The bounds of the memory, the block of the host and the kind of build.
pub record Place : Type 0 where
  pub memory : Memory
  pub block : HostBlock
  pub build : BuildType

abbrev pub place : Machine → Place
place m = record { memory = m.memory; block = m.block; build = m.build }

-- If it returns, it returns at `p`.
abbrev pub Stays : {A : Type 0} → Place → Outcome A → Type 0
Stays p (returns a m) = place m ≡ p
Stays p (halts h) = Unit {0}

-- `c` keeps the place, whatever it returns.
pub record Keeps {A : Type 0} (c : M A) : Type 0 where
  pub at : (p : Place) (m : Machine) → place m ≡ p → Stays p (c m)

module _ {A : Type 0} where
  pub Keeps-pure : (a : A) → Keeps (pure a)
  Keeps-pure a = record { at = λ p m e. e }

  pub Keeps-halt : (h : Halt) → Keeps {A = A} (halt h)
  Keeps-halt h = record { at = λ p m e. tt }

  pub Keeps-defined : (o : Option A) → Keeps (defined o)
  Keeps-defined none = record { at = λ p m e. tt }
  Keeps-defined (some a) = record { at = λ p m e. e }

  pub Keeps-if : (b : Bool) (c d : M A) → Keeps c → Keeps d → Keeps (if b then c else d)
  Keeps-if true c d kc kd = kc
  Keeps-if false c d kc kd = kd

  pub Stays-if :
      (p : Place) (b : Bool) (o q : Outcome A)
      → Stays p o
      → Stays p q
      → Stays p (if b then o else q)
  Stays-if p true o q so sq = so
  Stays-if p false o q so sq = sq

  -- A function that first looks at the machine.
  pub Keeps-look : (f : Machine → M A) → ((m : Machine) → Keeps (f m)) → Keeps (λ m. f m m)
  Keeps-look f k = record { at = λ p m e. (k m).at p m e }

  pub Keeps-option :
      {B : Type 0} (o : Option B) (c : M A) (f : B → M A)
      → Keeps c
      → ((b : B) → Keeps (f b))
      → Keeps (elim o [ none ↦ c | some b ↦ f b ])
  Keeps-option none c f kc kf = kc
  Keeps-option (some b) c f kc kf = kf b

  -- A test that chooses one of two functions of an address and a word.
  pub Keeps-if-at :
      (b : Bool) (c d : ℕ → ℕ → M A) (x y : ℕ)
      → Keeps (c x y)
      → Keeps (d x y)
      → Keeps ((if b then c else d) x y)
  Keeps-if-at true c d x y kc kd = kc
  Keeps-if-at false c d x y kc kd = kd

  -- A function that first tests the machine.
  pub Keeps-test :
      (t : Machine → Bool) (c d : Machine → M A)
      → ((m : Machine) → Keeps (c m))
      → ((m : Machine) → Keeps (d m))
      → Keeps (λ m. if t m then c m m else d m m)
  Keeps-test t c d kc kd = record {
    at = λ p m e. Stays-if p (t m) _ _ ((kc m).at p m e) ((kd m).at p m e);
  }

  pub Keeps-update :
      (f : Machine → A) (g : Machine → Machine)
      → ((m : Machine) → place (g m) ≡ place m)
      → Keeps (λ m. returns (f m) (g m))
  Keeps-update f g k = record { at = λ p m e. k m ∙ e }

failed :
    (p : Place) (m : Machine) (b : BuildType)
    → place m ≡ p
    → Stays p (elim b [ release ↦ returns tt m | alpha ↦ halts assertion | beta ↦ halts assertion ])
failed p m release e = e
failed p m alpha e = tt
failed p m beta e = tt

pub Keeps-assert : (b : Bool) → Keeps (assert b)
Keeps-assert true = record { at = λ p m e. e }
Keeps-assert false = record { at = λ p m e. failed p m m.build e }

module _ {A B : Type 0} where
  Stays-bind :
      (p : Place) (o : Outcome A) (f : A → M B)
      → Stays p o
      → ((a : A) → Keeps (f a))
      → Stays p (bind o f)
  Stays-bind p (returns a m) f s k = (k a).at p m s
  Stays-bind p (halts h) f s k = tt

  pub Keeps-bind : (c : M A) (f : A → M B) → Keeps c → ((a : A) → Keeps (f a)) → Keeps (c >>= f)
  Keeps-bind c f kc kf = record { at = λ p m e. Stays-bind p (c m) f (kc.at p m e) kf }

pub Keeps-then : {B : Type 0} (c : M (Unit {0})) (d : M B) → Keeps c → Keeps d → Keeps (c >> d)
Keeps-then c d kc kd = Keeps-bind c (λ _. d) kc (λ _. kd)
