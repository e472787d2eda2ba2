-- ===== src/Service/Rehash.antt =====
-- What the part of Authenticate does that renews a hash, and what stops it (service/service.go).
use userd.Common.{String, ◌≡◌, ◌≢◌, refl, ap, ◌∙◌, ◌⊎◌, inl, inr, arith, Bool, true, false, not}
use userd.Errors.{ErrGo}
use userd.User.{User}
use userd.Exec.{Outcome, ok, lift, pure, ignore, IsFailure, bind_rule, if_rule, ◌>>◌}
use userd.Storage.Directory.{IsDirectory, SameUsers, store, Saving, done, incomplete, taken}
use userd.Service.Backends.{Dependencies, World, Entry, on_store, on_salt}
use userd.Service.Login.{rehash}

module _ (g : ErrGo) {S F H : Type 0} (deps : Dependencies S F H)
    (dir : IsDirectory g deps.user_storage) (storable : (u : User) → dir.IsStorable u)
    (marshals : (e : Entry) → (bytes : String) × (deps.marshal_entry e ≡ ok bytes)) where
  -- The users stay, and no event is logged.
  abbrev pub Unchanged : {A : Type 0} → World S F H → Outcome A × World S F H → Type 0
  Unchanged w r = SameUsers (dir.users r.1.store) (dir.users w.store) × (r.1.tasks ≡ w.tasks)

  -- The user's hash was not written, or it asked to be renewed, and the one that the hasher made of the
  -- password was written.
  abbrev pub Rehashed : User → String → World S F H → World S F H → Type 0
  Rehashed u password w w' =
      SameUsers (dir.users w'.store) (dir.users w.store)
      ⊎ ((hash : String) × (deps.hasher.needs_rehash u.login_password_hash ≡ ok true)
          × ((deps.hasher.hash password w.salt).0 ≡ ok hash)
          × SameUsers (dir.users w'.store)
              (store (record u { login_password_hash = hash }) (dir.users w.store)))

  -- The hasher panics at the user's hash, or at the password, which is only hashed where the user's
  -- hash asks to be renewed.
  abbrev pub HasherFails : User → String → World S F H → Type 0
  HasherFails u password w =
      ((b : Bool) → deps.hasher.needs_rehash u.login_password_hash ≢ ok b)
      ⊎ ((deps.hasher.needs_rehash u.login_password_hash ≡ ok true)
          × ((hash : String) → (deps.hasher.hash password w.salt).0 ≢ ok hash))

  pub data Rehashing (u : User) (password : String) (w : World S F H)
      (r : Outcome User × World S F H) : Type 0 where
    renewed :
        (u' : User)
        → r.0 ≡ ok u'
        → u'.id ≡ u.id
        → Rehashed u password w r.1
        → r.1.tasks ≡ w.tasks
        → Rehashing u password w r
    stuck : HasherFails u password w → IsFailure r.0 → Unchanged w r → Rehashing u password w r

  -- A call of rehash on a valid storage, which stays valid.
  pub rehash-Rehashing :
      (u : User) (password : String) (w : World S F H)
      → dir.IsValid w.store
      → Rehashing u password w (rehash g deps u password w)
        × dir.IsValid (rehash g deps u password w).1.store
  unfolding rehash on_store on_salt
  rehash-Rehashing u password w v =
      bind_rule Q (lift (deps.hasher.needs_rehash u.login_password_hash)) w _
        (λ needs e.
          if_rule Q (not needs) _ _ w (λ _. (renewed u refl refl (inl (λ i. refl)) refl, v))
            (λ b.
              bind_rule Q (on_salt (deps.hasher.hash password)) w _
                (λ hash drawn.
                  let u' : User = record u { login_password_hash = hash } in
                  saved hash (e ∙ ap ok (needs_true needs b)) drawn
                    (dir.saving w.store v u' (storable u'))
                    (dir.save-IsValid w.store v u' (storable u')))
                (λ r f ne.
                  (stuck (inr (e ∙ ap ok (needs_true needs b), ne)) f (λ i. refl, refl), v))))
        (λ r f ne. (stuck (inl ne) f (λ i. refl, refl), v))
    where
      Q : Outcome User × World S F H → Type 0
      Q r = Rehashing u password w r × dir.IsValid r.1.store

      needs_true : (b : Bool) → not b ≡ false → b ≡ true
      needs_true b h = ground arith

      saved :
          (hash : String)
          → deps.hasher.needs_rehash u.login_password_hash ≡ ok true
          → (deps.hasher.hash password w.salt).0 ≡ ok hash
          → Saving g
              (dir.users w.store)
              (record u { login_password_hash = hash })
              (deps.user_storage.save (record u { login_password_hash = hash }) w.store).0
              (dir.users
                (deps.user_storage.save (record u { login_password_hash = hash }) w.store).1)
          → dir.IsValid (deps.user_storage.save (record u { login_password_hash = hash }) w.store).1
          → Q (
              (do
                ignore (on_store (deps.user_storage.save (record u { login_password_hash = hash })))
                pure (record u { login_password_hash = hash }))
                (record w { salt = (deps.hasher.hash password w.salt).1 }))
      saved hash needs drawn (done e _ _ now) v' =
          rw e (renewed _ refl refl (inr (hash, needs, drawn, now)) refl, v')
      saved hash needs drawn (incomplete e _ same) v' =
          rw e (renewed _ refl refl (inl same) refl, v')
      saved hash needs drawn (taken f e _ same) v' = rw e (renewed _ refl refl (inl same) refl, v')
