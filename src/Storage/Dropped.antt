-- ===== src/Storage/Dropped.antt =====
-- The errors of the writes in Save of service/storage/keyvalue.go, which it drops.
use userd.Common.{String, ◌≡◌, ◌≢◌, refl, sym, Bool, true, false, ◌==◌, if◌then◌else◌}
use userd.Errors.{ErrGo, Error, err_is, mask_all, user_not_found}
use userd.User.{User, zero_user}
use userd.Exec.{
  Outcome, ok, err, panic, Exec, pure, lift, map_error, attempt, ignore, continue, handle, ◌>>=◌,
}
use userd.Storage.Interface.{UserCodec, KeyValueStorage}
use userd.Storage.KeyValue.{
  remove_old, put_token, replace, write, save_valid, save, no_lock_lookup, check_token,
  check_taken_by_other_user,
}

-- What follows a call, where its two continuations have the same outcome.
module _ {S A B : Type 0} (m : Exec S A) where
  same_bind :
      (f f' : A → Exec S B)
      → ((a : A) (s : S) → (f a s).0 ≡ (f' a s).0)
      → (s : S) → ((m >>= f) s).0 ≡ ((m >>= f') s).0
  same_bind f f' same s = either (m s).0 (m s).1
    where
      either : (r : Outcome A) (s' : S) → (continue r f s').0 ≡ (continue r f' s').0
      either (ok a) s' = same a s'
      either (err e) s' = refl
      either panic s' = refl

  same_attempt :
      (f f' : A → Exec S B) (h h' : Error → Exec S B)
      → ((a : A) (s : S) → (f a s).0 ≡ (f' a s).0)
      → ((e : Error) (s : S) → (h e s).0 ≡ (h' e s).0)
      → (s : S) → (attempt m f h s).0 ≡ (attempt m f' h' s).0
  same_attempt f f' h h' same rescued s = either (m s).0 (m s).1
    where
      either : (r : Outcome A) (s' : S) → (handle r f h s').0 ≡ (handle r f' h' s').0
      either (ok a) s' = same a s'
      either (err e) s' = rescued e s'
      either panic s' = refl

same_if :
    {S A : Type 0} (b : Bool) (m m' n n' : Exec S A)
    → ((s : S) → (m s).0 ≡ (m' s).0)
    → ((s : S) → (n s).0 ≡ (n' s).0)
    → (s : S) → ((if b then m else n) s).0 ≡ ((if b then m' else n') s).0
same_if true m m' n n' p q s = p s
same_if false m m' n n' p q s = q s

-- A call whose error is dropped has no error.
ignored : {S : Type 0} (m : Exec S (Unit {0})) (s : S) → (m s).0 ≢ panic → (ignore m s).0 ≡ ok tt
ignored m s returns = either (m s).0 returns
  where
    either :
        (r : Outcome (Unit {0}))
        → r ≢ panic
        → (handle r (λ _. pure tt) (λ _. pure tt) (m s).1).0 ≡ ok tt
    either (ok a) h = refl
    either (err e) h = refl
    either panic h = absurd (h refl)

module _ (g : ErrGo) (json : UserCodec) {S : Type 0} (kv : KeyValueStorage S) (failure : Error)
    (returns : (id text : String) (s : S) → (kv.driver.set id text s).0 ≢ panic) where
  -- The storage over a driver that no longer stores users: each call of Set fails.
  abbrev pub without_set : KeyValueStorage S
  without_set = record kv { driver = record kv.driver { set = λ id text s. (err failure, s) } }

  replace-without_set :
      (old user : User) (s : S)
      → (replace g json without_set old user s).0 ≡ (replace g json kv old user s).0
  unfolding replace remove_old put_token
  replace-without_set old user = same_bind (remove_old g json kv kv.emails old.email) _ _ λ _.
      same_bind (remove_old g json kv kv.login_names old.login_name) _ _ λ _.
        same_bind (remove_old g json kv kv.reset_password_token old.reset_password_token) _ _ λ _.
          same_bind (ignore (kv.emails.put user.email user.id)) _ _ λ _.
            same_bind (ignore (kv.login_names.put user.login_name user.id)) _ _ λ _.
              same_bind (put_token g json kv user) _ _ λ _.
                same_bind (map_error (mask_all g) (lift (json.marshal user))) _ _
                  λ text s. sym (ignored (kv.driver.set user.id text) s (returns user.id text s))

  write-without_set :
      (user : User) (s : S) → (write g json without_set user s).0 ≡ (write g json kv user s).0
  unfolding write no_lock_lookup
  write-without_set user =
      same_attempt (no_lock_lookup g json kv user.id) _ _ _ _ (λ old. replace-without_set old user)
        (λ e.
          same_if (err_is e user_not_found) _ _ _ _ (replace-without_set zero_user user)
            (λ s. refl))

  -- Over any driver, Save does not tell whether the user was stored: with a driver whose Set always
  -- fails, and nothing is stored, it has the outcome that it has with a Set that works.
  pub save-without_set :
      (user : User) (s : S) → (save g json without_set user s).0 ≡ (save g json kv user s).0
  unfolding save save_valid check_token
  save-without_set user =
      same_if (user.id == "") _ _ _ _ (λ s. refl)
        (same_if (user.email == "") _ _ _ _ (λ s. refl)
          (same_if (user.login_name == "") _ _ _ _ (λ s. refl)
            (same_bind
              (map_error (mask_all g)
                (check_taken_by_other_user g json kv.emails user.email user.id))
              _ _
              (λ taken.
                same_if taken _ _ _ _ (λ s. refl)
                  (same_bind
                    (map_error (mask_all g)
                      (check_taken_by_other_user g json kv.login_names user.login_name user.id))
                    _ _
                    (λ taken.
                      same_if taken _ _ _ _ (λ s. refl)
                        (same_bind (check_token g json kv user) _ _ (λ taken.
                          same_if taken _ _ _ _ (λ s. refl) (write-without_set user)))))))))
