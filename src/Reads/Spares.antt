-- ===== src/Reads/Spares.antt =====
-- Runs whose result tells whether they changed the file.
use mathlib.Core.Path.{subst}
use llp_base.Common.{ℕ, ◌≡◌, refl, sym, ◌∙◌, Bool, true, false, ◌||◌, List, if◌then◌else◌}
use llp_base.OsFile.{World, Run, ok, fault, out_of_fuel, Io, and_then, pure, ◌>>=◌}
use llp_base.Reads.{Keeps, kept, faulted, starved}

-- What the run comes to, from a file of these bytes: where it returns a result that `changes` does not
-- hold of, the bytes are the same.
pub data Spares (bytes : List ℕ) {A : Type 0} (changes : A → Bool) : Run A → Type 0 where
  spared :
      (a : A) (w : World) → (changes a ≡ false → w.bytes ≡ bytes) → Spares bytes changes (ok a w)
  failed : Spares bytes changes fault
  unfinished : Spares bytes changes out_of_fuel

pub Keeps-Spares :
    {A : Type 0} {bytes : List ℕ} (changes : A → Bool) (r : Run A)
    → Keeps bytes r
    → Spares bytes changes r
Keeps-Spares changes _ (kept a w e) = spared a w (λ _. e)
Keeps-Spares changes _ faulted = failed
Keeps-Spares changes _ starved = unfinished

from_before :
    {A : Type 0} {changes : A → Bool} {before after : List ℕ} (r : Run A)
    → before ≡ after
    → Spares before changes r
    → Spares after changes r
from_before {A} {changes} r e h = subst (λ bytes. Spares bytes changes r) e h

module _ {A B : Type 0} {bytes : List ℕ} (changes : B → Bool) where
  pub then-Spares :
      (r : Run A) (k : A → Io B)
      → Keeps bytes r
      → ((a : A) (w : World) → Spares w.bytes changes (k a w))
      → Spares bytes changes (and_then r k)
  then-Spares _ k (kept a w e) h = from_before _ e (h a w)
  then-Spares _ k faulted h = failed
  then-Spares _ k starved h = unfinished

  -- The result says that there was a change.
  pub change-Spares :
      (r : Run A) (f : A → B)
      → ((a : A) → changes (f a) ≡ true)
      → Spares bytes changes (and_then r (λ a. pure (f a)))
  change-Spares (ok a w) f h = spared (f a) w (λ e. cc (h a))
  change-Spares fault f h = failed
  change-Spares out_of_fuel f h = unfinished

pub if-Spares :
    {A : Type 0} {bytes : List ℕ} {changes : A → Bool} (b : Bool) (m n : Io A) (w : World)
    → Spares bytes changes (m w)
    → Spares bytes changes (n w)
    → Spares bytes changes ((if b then m else n) w)
if-Spares true m n w h k = h
if-Spares false m n w h k = k

or-false : (a b : Bool) → (a || b) ≡ false → (a ≡ false) × (b ≡ false)
or-false true b e = cc
or-false false b e = (refl, e)

-- Two parts of a run, of which the result tells what both changed.
module _ {A B C : Type 0} {bytes : List ℕ} (first : A → Bool) (second : B → Bool)
    (changes : C → Bool) (f : A → B → C)
    (both : (a : A) (b : B) → changes (f a b) ≡ (first a || second b)) where
  second-Spares :
      (a : A) (before : List ℕ) (r : Run B)
      → (first a ≡ false → before ≡ bytes)
      → Spares before second r
      → Spares bytes changes (and_then r (λ b. pure (f a b)))
  second-Spares a before _ h (spared b w k) =
      spared (f a b) w
        (λ e. (let (x, y) = or-false (first a) (second b) (sym (both a b) ∙ e) in k y ∙ h x))
  second-Spares a before _ h failed = failed
  second-Spares a before _ h unfinished = unfinished

  pub both-Spares :
      (r : Run A) (m : A → Io B)
      → Spares bytes first r
      → ((a : A) (w : World) → Spares w.bytes second (m a w))
      → Spares bytes changes (and_then r (λ a. m a >>= λ b. pure (f a b)))
  both-Spares _ m (spared a w h) k = second-Spares a w.bytes (m a w) h (k a w)
  both-Spares _ m failed k = failed
  both-Spares _ m unfinished k = unfinished
