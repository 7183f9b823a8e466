-- ===== src/Ends.antt =====
-- Which of the functions on the file return or fault whatever the file holds: they have no loop that
-- the file could keep going. `out_of_fuel` stands for a loop that goes on.
use llp_base.Common.{ℕ, ◌≡◌, refl, ◌≢◌, Option, none, some, Bool, true, false, if◌then◌else◌}
use llp_base.OsFile.{World, Run, ok, fault, out_of_fuel, Io, and_then}
use llp_base.DataFile.{defined}
pub mod Files
pub mod Nodes
pub mod Parse

-- The run has returned, or met a fault.
pub data IsOver {A : Type 0} : Run A → Type 0 where
  returned : (a : A) (w : World) → IsOver (ok a w)
  faulted : IsOver fault

abbrev pub Ends : {A : Type 0} → Io A → Type 0
Ends m = (w : World) → IsOver (m w)

module _ {A : Type 0} where
  pub then-IsOver :
      {B : Type 0} {r : Run A} {k : A → Io B}
      → IsOver r
      → ((a : A) → Ends (k a))
      → IsOver (and_then r k)
  then-IsOver (returned a w) h = h a w
  then-IsOver faulted h = faulted

  pub if-IsOver :
      (b : Bool) (m n : Io A) (w : World)
      → IsOver (m w)
      → IsOver (n w)
      → IsOver ((if b then m else n) w)
  if-IsOver true m n w h k = h
  if-IsOver false m n w h k = k

  pub defined-IsOver : (o : Option A) → Ends (defined o)
  defined-IsOver none w = faulted
  defined-IsOver (some a) w = returned a w

pub option-IsOver :
    {A B : Type 0} (o : Option A) (m : Io B) (k : A → Io B) (w : World)
    → IsOver (m w)
    → ((a : A) → IsOver (k a w))
    → IsOver ((elim o as (λ _. Io B) [ none ↦ m | some a ↦ k a ]) w)
option-IsOver none m k w h j = h
option-IsOver (some a) m k w h j = j a
