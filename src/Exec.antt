-- ===== src/Exec.antt =====
-- Methods that read and write a state and may fail. A Go method returns a value or an error, or it
-- panics; what it wrote before stays written, so the state comes back in each case.
use userd.Common.{◌≡◌, ◌≢◌, refl, Bool, true, false, if◌then◌else◌}
use userd.Errors.{Error}

pub data Outcome {ℓ} (A : Type ℓ) : Type ℓ where
  ok : A → Outcome A
  err : Error → Outcome A
  panic : Outcome A

abbrev pub Exec : Type 0 → Type 0 → Type 0
Exec S A = S → Outcome A × S

-- The error, if there is one, is replaced.
abbrev pub map_outcome : {A : Type 0} → (Error → Error) → Outcome A → Outcome A
map_outcome f (ok a) = ok a
map_outcome f (err e) = err (f e)
map_outcome f panic = panic

module _ {S A : Type 0} where
  abbrev pub pure : A → Exec S A
  pure a s = (ok a, s)

  abbrev pub fail : Error → Exec S A
  fail e s = (err e, s)

  -- panic(...)
  abbrev pub abort : Exec S A
  abort s = (panic, s)

  -- A computation without state.
  abbrev pub lift : Outcome A → Exec S A
  lift r s = (r, s)

  abbrev pub map_error : (Error → Error) → Exec S A → Exec S A
  map_error f m s = let (r, s') = m s in (map_outcome f r, s')

module _ {S A B : Type 0} where
  abbrev pub continue : Outcome A → (A → Exec S B) → Exec S B
  continue (ok a) f s = f a s
  continue (err e) f s = (err e, s)
  continue panic f s = (panic, s)

  -- Both outcomes of a call that may fail, for code that looks at the error itself.
  abbrev pub handle : Outcome A → (A → Exec S B) → (Error → Exec S B) → Exec S B
  handle (ok a) f h s = f a s
  handle (err e) f h s = h e s
  handle panic f h s = (panic, s)

  infixl 10 ◌>>=◌ ◌>>◌
  abbrev pub ◌>>=◌ : Exec S A → (A → Exec S B) → Exec S B
  ◌>>=◌ m f s = let (r, s') = m s in continue r f s'

  abbrev pub ◌>>◌ : Exec S A → Exec S B → Exec S B
  m >> n = m >>= λ _. n

  abbrev pub attempt : Exec S A → (A → Exec S B) → (Error → Exec S B) → Exec S B
  attempt m f h s = let (r, s') = m s in handle r f h s'

-- A call whose error the source drops.
abbrev pub ignore : {S A : Type 0} → Exec S A → Exec S (Unit {0})
ignore m = attempt m (λ _. pure tt) (λ _. pure tt)

-- What follows a call that succeeds, and one that fails.
module _ {S A B : Type 0} (m : Exec S A) where
  pub bind-ok : (f : A → Exec S B) {a : A} {s s' : S} → m s ≡ (ok a, s') → (m >>= f) s ≡ f a s'
  bind-ok f e i = continue (e i).0 f (e i).1

  pub bind-err :
      (f : A → Exec S B) {e : Error} {s s' : S} → m s ≡ (err e, s') → (m >>= f) s ≡ (err e, s')
  bind-err f e i = continue (e i).0 f (e i).1

  pub attempt-ok :
      (f : A → Exec S B) (h : Error → Exec S B) {a : A} {s s' : S}
      → m s ≡ (ok a, s')
      → attempt m f h s ≡ f a s'
  attempt-ok f h e i = handle (e i).0 f h (e i).1

  pub attempt-err :
      (f : A → Exec S B) (h : Error → Exec S B) {e : Error} {s s' : S}
      → m s ≡ (err e, s')
      → attempt m f h s ≡ h e s'
  attempt-err f h e i = handle (e i).0 f h (e i).1

module _ {S A : Type 0} (m : Exec S A) where
  pub map_error-ok :
      (f : Error → Error) {a : A} {s s' : S} → m s ≡ (ok a, s') → map_error f m s ≡ (ok a, s')
  map_error-ok f e i = (map_outcome f (e i).0, (e i).1)

  pub map_error-err :
      (f : Error → Error) {e : Error} {s s' : S}
      → m s ≡ (err e, s')
      → map_error f m s ≡ (err (f e), s')
  map_error-err f e i = (map_outcome f (e i).0, (e i).1)

-- An outcome with no value.
abbrev pub IsFailure : {A : Type 0} → Outcome A → Type 0
IsFailure (ok a) = ⊥
IsFailure _ = Unit

-- To prove something of a sequence: of what follows a success, and of a first part that fails.
module _ {S A B : Type 0} (Q : Outcome B × S → Type 0) (m : Exec S A) (s : S) where
  pub bind_rule :
      (f : A → Exec S B)
      → ((a : A) → (m s).0 ≡ ok a → Q (f a (m s).1))
      → ((r : Outcome B) → IsFailure r → ((a : A) → (m s).0 ≢ ok a) → Q (r, (m s).1))
      → Q ((m >>= f) s)
  bind_rule f after stop = go (m s).0 refl
    where
      go : (r : Outcome A) → (m s).0 ≡ r → Q (continue r f (m s).1)
      go (ok a) e = after a e
      go (err x) e = stop (err x) tt (λ a h. cc)
      go panic e = stop panic tt (λ a h. cc)

module _ {S A B : Type 0} (Q : Outcome B × S → Type 0) (m : Exec S A) (s : S) where
  pub attempt_rule :
      (f : A → Exec S B) (h : Error → Exec S B)
      → ((a : A) → (m s).0 ≡ ok a → Q (f a (m s).1))
      → ((e : Error) → (m s).0 ≡ err e → Q (h e (m s).1))
      → ((m s).0 ≡ panic → Q (panic, (m s).1))
      → Q (attempt m f h s)
  attempt_rule f h after rescue stop = go (m s).0 refl
    where
      go : (r : Outcome A) → (m s).0 ≡ r → Q (handle r f h (m s).1)
      go (ok a) e = after a e
      go (err x) e = rescue x e
      go panic e = stop e

-- Replacing the error keeps a value.
pub map_outcome-eq-ok :
    {A : Type 0} (f : Error → Error) (r : Outcome A) {a : A} → map_outcome f r ≡ ok a → r ≡ ok a
map_outcome-eq-ok f (ok b) h = h
map_outcome-eq-ok f (err e) h = cc
map_outcome-eq-ok f panic h = cc

-- A test, before either of two actions.
pub if_rule :
    {S B : Type 0} (Q : Outcome B × S → Type 0) (b : Bool) (m n : Exec S B) (s : S)
    → (b ≡ true → Q (m s))
    → (b ≡ false → Q (n s))
    → Q ((if b then m else n) s)
if_rule Q true m n s p q = p refl
if_rule Q false m n s p q = q refl
