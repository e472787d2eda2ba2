-- ===== src/Storage/Follows.antt =====
-- One action follows another, seen through a view of its state: it has the same outcome, and it
-- leaves a state that looks like the other's. A rule for each way to build an action.
use userd.Common.{◌≡◌, refl, ap, ◌∙◌, Bool, true, false, if◌then◌else◌}
use userd.Errors.{Error}
use userd.Exec.{
  Outcome, ok, err, panic, Exec, pure, fail, abort, lift, map_outcome, map_error, continue, handle,
  attempt, ignore, ◌>>=◌,
}

pub record Follows {S T A : Type 0} (view : S → T) (m : Exec S A) (n : Exec T A) : Type 0 where
  pub outcome : (s : S) → (m s).0 ≡ (n (view s)).0
  pub state : (s : S) → view (m s).1 ≡ (n (view s)).1

module _ {S T A : Type 0} {view : S → T} where
  pub Follows-pure : (a : A) → Follows view (pure a) (pure a)
  Follows-pure a = record { outcome = λ s. refl; state = λ s. refl }

  pub Follows-fail : (e : Error) → Follows {A = A} view (fail e) (fail e)
  Follows-fail e = record { outcome = λ s. refl; state = λ s. refl }

  pub Follows-abort : Follows {A = A} view abort abort
  Follows-abort = record { outcome = λ s. refl; state = λ s. refl }

  pub Follows-lift : (r : Outcome A) → Follows view (lift r) (lift r)
  Follows-lift r = record { outcome = λ s. refl; state = λ s. refl }

  pub Follows-map_error :
      (f : Error → Error) (m : Exec S A) (n : Exec T A)
      → Follows view m n
      → Follows view (map_error f m) (map_error f n)
  Follows-map_error f m n h = record {
    outcome = λ s. ap (map_outcome f) (h.outcome s);
    state = λ s. h.state s;
  }

  pub Follows-if :
      (b : Bool) (m m' : Exec S A) (n n' : Exec T A)
      → Follows view m n
      → Follows view m' n'
      → Follows view (if b then m else m') (if b then n else n')
  Follows-if true m m' n n' h h' = h
  Follows-if false m m' n n' h h' = h'

module _ {S T A B : Type 0} {view : S → T} where
  module _ (f : A → Exec S B) (f' : A → Exec T B) (k : Error → Exec S B) (k' : Error → Exec T B)
      (hf : (a : A) → Follows view (f a) (f' a))
      (hk : (e : Error) → Follows view (k e) (k' e)) where
    Follows-handle : (r : Outcome A) → Follows view (handle r f k) (handle r f' k')
    Follows-handle (ok a) = record { outcome = (hf a).outcome; state = (hf a).state }
    Follows-handle (err e) = record { outcome = (hk e).outcome; state = (hk e).state }
    Follows-handle panic = record { outcome = λ s. refl; state = λ s. refl }

    pub Follows-attempt :
        (m : Exec S A) (n : Exec T A)
        → Follows view m n
        → Follows view (attempt m f k) (attempt n f' k')
    Follows-attempt m n h = record {
      outcome = λ s.
          let after = Follows-handle (m s).0 in
          after.outcome (m s).1 ∙ (λ i. (handle (h.outcome s i) f' k' (h.state s i)).0);
      state = λ s.
          let after = Follows-handle (m s).0 in
          after.state (m s).1 ∙ (λ i. (handle (h.outcome s i) f' k' (h.state s i)).1);
    }

  module _ (f : A → Exec S B) (f' : A → Exec T B) (hf : (a : A) → Follows view (f a) (f' a)) where
    Follows-continue : (r : Outcome A) → Follows view (continue r f) (continue r f')
    Follows-continue (ok a) = record { outcome = (hf a).outcome; state = (hf a).state }
    Follows-continue (err e) = record { outcome = λ s. refl; state = λ s. refl }
    Follows-continue panic = record { outcome = λ s. refl; state = λ s. refl }

    pub Follows-bind :
        (m : Exec S A) (n : Exec T A) → Follows view m n → Follows view (m >>= f) (n >>= f')
    Follows-bind m n h = record {
      outcome = λ s.
          let after = Follows-continue (m s).0 in
          after.outcome (m s).1 ∙ (λ i. (continue (h.outcome s i) f' (h.state s i)).0);
      state = λ s.
          let after = Follows-continue (m s).0 in
          after.state (m s).1 ∙ (λ i. (continue (h.outcome s i) f' (h.state s i)).1);
    }

module _ {S T A : Type 0} {view : S → T} where
  pub Follows-ignore :
      (m : Exec S A) (n : Exec T A) → Follows view m n → Follows view (ignore m) (ignore n)
  Follows-ignore m n h =
      Follows-attempt (λ _. pure tt) (λ _. pure tt) (λ _. pure tt) (λ _. pure tt)
        (λ a. Follows-pure tt) (λ e. Follows-pure tt) m n h
