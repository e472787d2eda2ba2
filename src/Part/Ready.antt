-- ===== src/Part/Ready.antt =====
-- When a part is made: the switches on a name, and one part after the other.
use userd.Common.{String, ◌≡◌, ◌≢◌, ◌↔◌, ◌⊎◌, inl, inr, refl, ◌==◌, text_cases, if◌then◌else◌}
use userd.Exec.{Outcome, ok, err, panic}
use userd.Part.{Part, ready, ends, Ending, and_then, or_panic}

module _ {A : Type 0} where
  abbrev pub IsReady : Part A → Type 0
  IsReady p = (a : A) × (p ≡ ready a)

  pub never : (ending : Ending) → ¬ (IsReady (ends ending))
  never ending (a, e) = cc

  -- One case of a switch on a name, and the rest; P tells that the name is the case's, Q that it is not.
  pub if_IsReady :
      (name key : String) (p q : Part A) {P Q : Type 0}
      → (P → name ≡ key)
      → (Q → name ≢ key)
      → (name ≡ key → IsReady p ↔ P)
      → (IsReady q ↔ Q)
      → IsReady (if name == key then p else q) ↔ (P ⊎ Q)
  if_IsReady name key p q here there first second = elim (text_cases name key) [
    | inl (same, e) ↦
        rw same (
          (λ r. inl ((first e).0 r)),
          (elim [ inl h ↦ (first e).1 h | inr h ↦ absurd (there h e) ]),
        )
    | inr (differs, ne) ↦
        rw differs
          ((λ r. inr (second.0 r)), (elim [ inl h ↦ absurd (ne (here h)) | inr h ↦ second.1 h ]))
  ]

  -- A case that is always made.
  pub if_always :
      (name key : String) (p q : Part A) {Q : Type 0}
      → IsReady p
      → (IsReady q ↔ Q)
      → IsReady (if name == key then p else q) ↔ ((name ≡ key) ⊎ Q)
  if_always name key p q made second = elim (text_cases name key) [
    | inl (same, e) ↦ rw same ((λ _. inl e), (λ _. made))
    | inr (differs, ne) ↦
        rw differs ((λ r. inr (second.0 r)), (elim [ inl h ↦ absurd (ne h) | inr h ↦ second.1 h ]))
  ]

  -- The last case, after which the process exits.
  pub last_IsReady :
      (name key : String) (p : Part A) (ending : Ending) {P : Type 0}
      → (P → name ≡ key)
      → (name ≡ key → IsReady p ↔ P)
      → IsReady (if name == key then p else ends ending) ↔ P
  last_IsReady name key p ending here first = elim (text_cases name key) [
    | inl (same, e) ↦ rw same (first e)
    | inr (differs, ne) ↦ rw differs ((λ r. absurd (never ending r)), (λ h. absurd (ne (here h))))
  ]

module _ {A B : Type 0} {P Q : Type 0} where
  -- One part after the other.
  pub and_then-IsReady :
      (p : Part A) (next : A → Part B)
      → (IsReady p ↔ P)
      → ((a : A) → IsReady (next a) ↔ Q)
      → IsReady (and_then p next) ↔ (P × Q)
  unfolding and_then
  and_then-IsReady (ready a) next first second =
      ((λ done. (first.0 (a, refl), (second a).0 done)), (λ (p, q). (second a).1 q))
  and_then-IsReady (ends ending) next first second =
      ((λ (b, e). cc), (λ (p, q). absurd (never ending (first.1 p))))

module _ {A B : Type 0} {P : Type 0} where
  -- And where the second always follows.
  pub and_then_always :
      (p : Part A) (next : A → Part B)
      → (IsReady p ↔ P)
      → ((a : A) → IsReady (next a))
      → IsReady (and_then p next) ↔ P
  unfolding and_then
  and_then_always (ready a) next first second = ((λ _. first.0 (a, refl)), (λ _. second a))
  and_then_always (ends ending) next first second =
      ((λ (b, e). cc), (λ p. absurd (never ending (first.1 p))))

pub or_panic-IsReady : (r : Outcome (Unit {0})) → IsReady (or_panic r) ↔ (r ≡ ok tt)
or_panic-IsReady (ok a) = ((λ _. refl), (λ _. (a, refl)))
or_panic-IsReady (err e) = ((λ (a, h). cc), (λ h. cc))
or_panic-IsReady panic = ((λ (a, h). cc), (λ h. cc))
