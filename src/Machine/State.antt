-- ===== src/Machine/State.antt =====
-- loader/skl.h: the state of the virtual processor and its memory, and the state monad of the
-- emulator's functions. A function returns with a new machine or ends the program.
use oberon.Prelude.{ℕ, Bool, true, false, Option, none, some, ◌≡◌, ap}

-- include/buildenv.h: the kind of build. `assert` is compiled out of a release build.
pub data BuildType : Type 0 where
  alpha beta release : BuildType

-- cpu_t. A register file is a function of the register number, and a double is its 64-bit
-- IEEE 754 pattern.
pub record Cpu : Type 0 where
  pub pc : ℕ
  pub instruction_count : ℕ
  pub cr : ℕ → ℕ
  pub r : ℕ → ℕ
  pub f : ℕ → ℕ
  pub exception_raised : Bool

-- memory_t: the Oberon memory is [beg, end).
pub record Memory : Type 0 where
  pub beg : ℕ
  pub end : ℕ
  pub n_bytes : ℕ

-- The block of host memory that backs the Oberon heap. An address is the host address less
-- `allocated_heap_upper_32`, so that it is the Oberon address where that fits 32 bits.
pub record HostBlock : Type 0 where
  pub base : ℕ
  pub size : ℕ

pub record Machine : Type 0 where
  pub cpu : Cpu
  pub memory : Memory
  pub block : HostBlock
  pub bytes : ℕ → ℕ
  pub build : BuildType

-- The ways in which the program ends inside a function: `dialog::fatal`,
-- `dialog::internal_error`, `dialog::not_implemented`, a failed `assert`, and an operation that
-- C++ leaves undefined (an access outside the block, an overflow of `int`).
pub data Halt : Type 0 where
  fatal internal_error not_implemented assertion undefined : Halt

pub data Outcome (A : Type 0) : Type 0 where
  returns : A → Machine → Outcome A
  halts : Halt → Outcome A

abbrev pub M : Type 0 → Type 0
M A = Machine → Outcome A

abbrev pub pure : {A : Type 0} → A → M A
pure a m = returns a m

abbrev pub halt : {A : Type 0} → Halt → M A
halt h m = halts h

-- What follows an outcome.
abbrev pub bind : {A B : Type 0} → Outcome A → (A → M B) → Outcome B
bind (returns a t) f = f a t
bind (halts h) f = halts h

infixl 5 ◌>>=◌ ◌>>◌
abbrev pub ◌>>=◌ : {A B : Type 0} → M A → (A → M B) → M B
◌>>=◌ m f s = bind (m s) f

abbrev pub ◌>>◌ : {B : Type 0} → M (Unit {0}) → M B → M B
m >> k = m >>= λ _. k

pub returns->>= :
    {A B : Type 0} (m : M A) (k : A → M B) {a : A} {s t : Machine}
    → m s ≡ returns a t
    → (m >>= k) s ≡ k a t
returns->>= m k e = ap (λ o. bind o k) e

pub returns->> :
    {B : Type 0} (m : M (Unit {0})) (k : M B) {s t : Machine}
    → m s ≡ returns tt t
    → (m >> k) s ≡ k t
returns->> m k e = returns->>= m (λ _. k) e

-- A value that an overflow may leave undefined.
abbrev pub defined : {A : Type 0} → Option A → M A
defined none m = halts undefined
defined (some a) m = returns a m

-- `assert` of assert.h under `NDEBUG` or not.
abbrev pub assert : Bool → M (Unit {0})
assert true m = returns tt m
assert false m = elim m.build [
  | release ↦ returns tt m
  | alpha ↦ halts assertion
  | beta ↦ halts assertion
]
