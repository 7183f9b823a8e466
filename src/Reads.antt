-- ===== src/Reads.antt =====
-- Which of the functions on the file only read it: whatever it holds, the bytes are the same when they
-- return. They can still meet a fault, or run out of fuel.
use mathlib.Core.Path.{subst}
use llp_base.Common.{ℕ, ◌≡◌, refl, Option, none, some, Bool, true, false, List, if◌then◌else◌}
use llp_base.OsFile.{World, Run, ok, fault, out_of_fuel, Io, and_then}
use llp_base.DataFile.{defined}
pub mod Files
pub mod Searches
pub mod Answers
pub mod Printing
pub mod Retrieving
pub mod Spares
pub mod Session

-- What the run comes to, from a file of these bytes.
pub data Keeps (bytes : List ℕ) {A : Type 0} : Run A → Type 0 where
  kept : (a : A) (w : World) → w.bytes ≡ bytes → Keeps bytes (ok a w)
  faulted : Keeps bytes fault
  starved : Keeps bytes out_of_fuel

abbrev pub Reads : {A : Type 0} → Io A → Type 0
Reads m = (w : World) → Keeps w.bytes (m w)

pub pure-Reads : {A : Type 0} (a : A) (w : World) → Keeps w.bytes (ok a w)
pure-Reads a w = kept a w refl

from_same :
    {A : Type 0} {before after : List ℕ} (r : Run A)
    → before ≡ after
    → Keeps before r
    → Keeps after r
from_same r e h = subst (λ bytes. Keeps bytes r) e h

module _ {A : Type 0} {bytes : List ℕ} where
  pub then-Keeps :
      {B : Type 0} {r : Run A} {k : A → Io B}
      → Keeps bytes r
      → ((a : A) → Reads (k a))
      → Keeps bytes (and_then r k)
  then-Keeps (kept a w e) h = from_same _ e (h a w)
  then-Keeps faulted h = faulted
  then-Keeps starved h = starved

  pub if-Keeps :
      (b : Bool) (m n : Io A) (w : World)
      → Keeps bytes (m w)
      → Keeps bytes (n w)
      → Keeps bytes ((if b then m else n) w)
  if-Keeps true m n w h k = h
  if-Keeps false m n w h k = k

pub defined-Reads : {A : Type 0} (o : Option A) → Reads (defined o)
defined-Reads none w = faulted
defined-Reads (some a) w = kept a w refl

pub option-Keeps :
    {A B : Type 0} {bytes : List ℕ} (o : Option A) (m : Io B) (k : A → Io B) (w : World)
    → Keeps bytes (m w)
    → ((a : A) → Keeps bytes (k a w))
    → Keeps bytes ((elim o as (λ _. Io B) [ none ↦ m | some a ↦ k a ]) w)
option-Keeps none m k w h j = h
option-Keeps (some a) m k w h j = j a
