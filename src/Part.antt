-- ===== src/Part.antt =====
-- How main.go makes its parts: a part that is made, or how the process ends instead.
pub mod Ready
use userd.Exec.{Outcome, ok, err, panic}

-- How a call ends; log.Fatalf ends the process.
pub data Ending : Type 0 where
  returned panicked exited : Ending

pub data Part (A : Type 0) : Type 0 where
  ready : A → Part A
  ends : Ending → Part A

-- A part, and what follows once it is made.
unfoldable pub and_then : {A B : Type 0} → Part A → (A → Part B) → Part B
and_then (ready a) next = next a
and_then (ends ending) next = ends ending

-- A constructor that panics at an error.
abbrev pub or_panic : {A : Type 0} → Outcome A → Part A
or_panic (ok a) = ready a
or_panic (err e) = ends panicked
or_panic panic = ends panicked
