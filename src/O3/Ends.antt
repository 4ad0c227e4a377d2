-- ===== src/O3/Ends.antt =====
-- loader/o3.cpp: functions that leave no more bytes in the object file than they find, and that never
-- stop because a loop goes on for too long.
use oberon.Prelude.{ℕ, zero, suc, ◌+◌, ◌≤◌, ◌<◌, ◌≢◌, arith, Bool, true, false}
use oberon.Prelude.Tests.{if◌then◌else◌}
use oberon.Prelude.Text.{length}
use oberon.Machine.State as Machine
use oberon.Machine.State.{M, Outcome}
use oberon.Heap.{Heap}
use oberon.Objio as Objio
use oberon.Objio.{Reading, Reader, ObjFile, End}
use oberon.O3.Loader.{
  Loading, Loader, L, did, stops, unending, pure, bind, ◌>>=◌, on_machine, on_heap, on_file,
  after_machine, after_heap, after_file, for_each,
}

-- At most `n` bytes are left, and fewer than `n`.
abbrev pub AtMost : {A : Type 0} → ℕ → Reading A → Type 0
AtMost n (Objio.got a f) = length f.rest ≤ n
AtMost n (Objio.ends e) = Unit {0}

abbrev pub Fewer : {A : Type 0} → ℕ → Reading A → Type 0
Fewer n (Objio.got a f) = length f.rest < n
Fewer n (Objio.ends e) = Unit {0}

abbrev pub Reads : {A : Type 0} → Reader A → Type 0
Reads r = (f : ObjFile) → AtMost (length f.rest) (r f)

abbrev pub Consumes : {A : Type 0} → Reader A → Type 0
Consumes r = (f : ObjFile) → Fewer (length f.rest) (r f)

AtMost-bind :
    {A B : Type 0} (n : ℕ) (r : Reading A) (k : A → Reader B)
    → AtMost n r
    → ((a : A) → Reads (k a))
    → AtMost n (Objio.bind r k)
AtMost-bind {B = B} n (Objio.got a f) k h later = below (k a f) (later a f)
  where
    below : (r : Reading B) → AtMost (length f.rest) r → AtMost n r
    below (Objio.got b g) few = omega arith
    below (Objio.ends e) few = tt
AtMost-bind n (Objio.ends e) k h later = tt

pub Reads-bind :
    {A B : Type 0} (r : Reader A) (k : A → Reader B)
    → Reads r
    → ((a : A) → Reads (k a))
    → Reads (Objio.◌>>=◌ r k)
Reads-bind r k h later f = AtMost-bind (length f.rest) (r f) k (h f) later

pub Consumes-Reads : {A : Type 0} (r : Reader A) → Consumes r → Reads r
Consumes-Reads {A = A} r h f = weak (r f) (h f)
  where
    weak : (o : Reading A) → Fewer (length f.rest) o → AtMost (length f.rest) o
    weak (Objio.got a g) few = omega arith
    weak (Objio.ends e) few = tt

-- At most `n` bytes of the file are left, and no loop goes on for too long.
abbrev pub Within : {A : Type 0} → ℕ → Loading A → Type 0
Within n (did a l) = length l.file.rest ≤ n
Within n (stops s) = s ≢ unending

abbrev pub Ends : {A : Type 0} → L A → Type 0
Ends m = (l : Loader) → Within (length l.file.rest) (m l)

pub Within-le : {A : Type 0} (n k : ℕ) (r : Loading A) → n ≤ k → Within n r → Within k r
Within-le n k (did a l) h few = omega arith
Within-le n k (stops s) h few = few

pub Within-bind :
    {A B : Type 0} (n : ℕ) (r : Loading A) (k : A → L B)
    → Within n r
    → ((a : A) → Ends (k a))
    → Within n (bind r k)
Within-bind n (did a l) k h later = Within-le (length l.file.rest) n (k a l) h (later a l)
Within-bind n (stops s) k h later = h

pub Ends-bind :
    {A B : Type 0} (m : L A) (k : A → L B) → Ends m → ((a : A) → Ends (k a)) → Ends (m >>= k)
Ends-bind m k h later l = Within-bind (length l.file.rest) (m l) k (h l) later

pub Ends-pure : {A : Type 0} (a : A) → Ends (pure a)
Ends-pure a l = omega arith

pub Ends-if : {A : Type 0} (b : Bool) (x y : L A) → Ends x → Ends y → Ends (if b then x else y)
Ends-if true x y hx hy = hx
Ends-if false x y hx hy = hy

pub Ends-on_machine : {A : Type 0} (f : M A) → Ends (on_machine f)
Ends-on_machine {A = A} f l = after (f l.machine)
  where
    after : (o : Outcome A) → Within (length l.file.rest) (after_machine l o)
    after (Machine.returns a m) = omega arith
    after (Machine.halts h) = cc

pub Ends-on_heap : {A : Type 0} (f : Heap → M (A × Heap)) → Ends (on_heap f)
Ends-on_heap {A = A} f l = after (f l.heap l.machine)
  where
    after : (o : Outcome (A × Heap)) → Within (length l.file.rest) (after_heap l o)
    after (Machine.returns (a, h) m) = omega arith
    after (Machine.halts h) = cc

pub Ends-on_file : {A : Type 0} (r : Reader A) → Reads r → Ends (on_file r)
Ends-on_file {A = A} r h l = after (r l.file) (h l.file)
  where
    after :
        (o : Reading A)
        → AtMost (length l.file.rest) o
        → Within (length l.file.rest) (after_file l o)
    after (Objio.got a f) few = few
    after (Objio.ends e) few = cc

-- After a byte is read, fewer are left.
pub Within-consumed :
    {A B : Type 0} (r : Reader A) (k : A → L B) (n : ℕ) (l : Loader)
    → Consumes r
    → length l.file.rest ≤ n
    → ((a : A) (t : Loader) → length t.file.rest < n → Within n (k a t))
    → Within n ((on_file r >>= k) l)
Within-consumed {A = A} r k n l h most later = after (r l.file) (h l.file)
  where
    after : (o : Reading A) → Fewer (length l.file.rest) o → Within n (bind (after_file l o) k)
    after (Objio.got a f) few = later a (record l { file = f }) (omega arith)
    after (Objio.ends e) few = cc

pub Ends-for_each :
    (n i : ℕ) (body : ℕ → L (Unit {0})) → ((j : ℕ) → Ends (body j)) → Ends (for_each n i body)
Ends-for_each zero i body h = Ends-pure tt
Ends-for_each (suc n) i body h =
    Ends-bind (body i) (λ _. for_each n (i + 1) body) (h i) (λ _. Ends-for_each n (i + 1) body h)
