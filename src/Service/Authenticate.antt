-- ===== src/Service/Authenticate.antt =====
-- What Authenticate answers, and what it does to the users and to the events, on every branch.
use userd.Common.{
  String, ◌≡◌, ◌≢◌, refl, sym, ap, ◌∙◌, ◌⊎◌, inl, inr, [], ◌∷◌, ◌++◌, arith, some, Bool, true,
  false, not, ◌&&◌, ◌||◌, ◌==◌, eq_iff, if◌then◌else◌,
}
use userd.Errors.{
  ErrGo, known, mask_service, user_not_found, invalid_arguments, invalid_credentials,
  user_email_must_be_verified,
}
use userd.User.{User}
use userd.Exec.{Outcome, ok, err, pure, map_error, IsFailure, bind_rule, if_rule, ◌>>=◌, ◌>>◌}
use userd.Storage.Interface.{login_names}
use userd.Storage.Directory.{IsDirectory, SameUsers, Finding, one, missing}
use userd.Service.Backends.{Config, Dependencies, World, Entry, text, on_store}
use userd.Service.Users.{log_event}
use userd.Service.Login.{rehash, authenticate_user, authenticate}
use userd.Service.Effects.{event_tasks, log_event_lem}
use userd.Service.Rehash.{
  Unchanged, Rehashed, HasherFails, Rehashing, renewed, stuck, rehash-Rehashing,
}

module _ (g : ErrGo) {S F H : Type 0} (deps : Dependencies S F H)
    (dir : IsDirectory g deps.user_storage) (storable : (u : User) → dir.IsStorable u)
    (marshals : (e : Entry) → (bytes : String) × (deps.marshal_entry e ≡ ok bytes)) where
  -- A stored user with the login name.
  abbrev pub HasLogin : World S F H → String → User → Type 0
  HasLogin w login_name u = (dir.users w.store u.id ≡ some u) × (u.login_name ≡ login_name)

  -- The email is not verified, though the configuration asks for it.
  abbrev pub must_verify : Config → User → Bool
  must_verify config u = config.auth_email_must_be_verified && not u.email_verified

  pub data Authenticating (config : Config) (login_name password : String) (w : World S F H)
      (r : Outcome String × World S F H) : Type 0 where
    no_argument :
        ((login_name ≡ "") ⊎ (password ≡ ""))
        → r.0 ≡ err (known invalid_arguments)
        → Unchanged g deps dir storable marshals w r
        → Authenticating config login_name password w r
    unknown :
        ((id : String) (u : User) → dir.users w.store id ≡ some u → u.login_name ≢ login_name)
        → r.0 ≡ err (mask_service g (known user_not_found))
        → Unchanged g deps dir storable marshals w r
        → Authenticating config login_name password w r
    not_verified :
        (u : User)
        → HasLogin w login_name u
        → must_verify config u ≡ true
        → r.0 ≡ err (known user_email_must_be_verified)
        → Unchanged g deps dir storable marshals w r
        → Authenticating config login_name password w r
    wrong_password :
        (u : User)
        → HasLogin w login_name u
        → must_verify config u ≡ false
        → deps.hasher.verify password u.login_password_hash ≡ false
        → r.0 ≡ err (known invalid_credentials)
        → Unchanged g deps dir storable marshals w r
        → Authenticating config login_name password w r
    accepted :
        (u : User) (bytes : String)
        → HasLogin w login_name u
        → must_verify config u ≡ false
        → deps.hasher.verify password u.login_password_hash ≡ true
        → r.0 ≡ ok u.id
        → Rehashed g deps dir storable marshals u password w r.1
        → deps.marshal_entry (("user_id", text u.id) ∷ []) ≡ ok bytes
        → r.1.tasks ≡ w.tasks ++ event_tasks "user.authenticated" bytes
        → Authenticating config login_name password w r
    hasher_failed :
        (u : User)
        → HasLogin w login_name u
        → must_verify config u ≡ false
        → deps.hasher.verify password u.login_password_hash ≡ true
        → HasherFails g deps dir storable marshals u password w
        → IsFailure r.0
        → Unchanged g deps dir storable marshals w r
        → Authenticating config login_name password w r

  module _ (config : Config) (login_name password : String) (w : World S F H)
      (v : dir.IsValid w.store) where
    abbrev Q : Outcome String × World S F H → Type 0
    Q r = Authenticating config login_name password w r × dir.IsValid r.1.store

    abbrev read : World S F H
    read = record w { store = (deps.user_storage.find_by_login_name login_name w.store).1 }

    same : SameUsers (dir.users read.store) (dir.users w.store)
    same = dir.find-users w.store v login_names login_name

    read-IsValid : dir.IsValid read.store
    read-IsValid = dir.find-IsValid w.store v login_names login_name

    -- The renewal of the hash, seen from before the search.
    rehashed :
        (u : User) (w' : World S F H)
        → Rehashed g deps dir storable marshals u password read w'
        → Rehashed g deps dir storable marshals u password w w'
    rehashed u w' (inl kept) = inl (λ i. kept i ∙ same i)
    rehashed u w' (inr (hash, needs, drawn, now)) = inr (
      hash,
      needs,
      drawn,
      λ i.
          now i
          ∙ ap (λ o. if u.id == i then some (record u { login_password_hash = hash }) else o)
              (same i),
    )

    module _ (u : User) (has : HasLogin w login_name u) where
      finish :
          (u' : User) (w' : World S F H)
          → u'.id ≡ u.id
          → must_verify config u ≡ false
          → deps.hasher.verify password u.login_password_hash ≡ true
          → Rehashed g deps dir storable marshals u password read w'
          → w'.tasks ≡ w.tasks
          → dir.IsValid w'.store
          → Q (
              (log_event g deps "user.authenticated" (("user_id", text u'.id) ∷ []) >> pure u'.id)
                w')
      finish u' w' own m f renewal logs valid =
          let (bytes, h) = marshals (("user_id", text u.id) ∷ []) in
          rw (own, log_event_lem g deps dir "user.authenticated" _ bytes w' h)
            (
              accepted u bytes has m f refl (rehashed u w' renewal) h
                  (ap (λ ts. ts ++ event_tasks "user.authenticated" bytes) logs),
              valid,
            )

      after_renewal :
          (u' : User) (r : Outcome User × World S F H)
          → r.0 ≡ ok u'
          → must_verify config u ≡ false
          → deps.hasher.verify password u.login_password_hash ≡ true
          → Rehashing g deps dir storable marshals u password read r
          → dir.IsValid r.1.store
          → Q (
              (log_event g deps "user.authenticated" (("user_id", text u'.id) ∷ []) >> pure u'.id)
                r.1)
      after_renewal u' r e m f (renewed x e' own renewal logs) valid =
          let eq : x ≡ u' = cc in
          finish u' r.1 (ap (λ (y : User). y.id) (sym eq) ∙ own) m f renewal logs valid
      after_renewal u' r e m f (stuck _ broken _) valid = absurd (rw e at broken)

      no_renewal :
          (x : Outcome String) (r : Outcome User × World S F H)
          → IsFailure x
          → ((u' : User) → r.0 ≢ ok u')
          → must_verify config u ≡ false
          → deps.hasher.verify password u.login_password_hash ≡ true
          → Rehashing g deps dir storable marshals u password read r
          → dir.IsValid r.1.store
          → Q (x, r.1)
      no_renewal x r broken ne m f (renewed u' e _ _ _) valid = absurd (ne u' e)
      no_renewal x r broken ne m f (stuck why _ (kept, logs)) valid =
          (hasher_failed u has m f why broken (λ i. kept i ∙ same i, logs), valid)

    authenticate_user-Authenticating :
        (u : User) → HasLogin w login_name u → Q (authenticate_user g deps config u password read)
    unfolding authenticate_user
    authenticate_user-Authenticating u has =
        if_rule Q (must_verify config u) _ _ read
          (λ m. (not_verified u has m refl (same, refl), read-IsValid))
          λ m.
            if_rule Q (not (deps.hasher.verify password u.login_password_hash)) _ _ read
              (λ f. (wrong_password u has m (not_true f) refl (same, refl), read-IsValid))
              λ f.
                let (renewal, valid) =
                  rehash-Rehashing g deps dir storable marshals u password read read-IsValid in
                bind_rule Q (rehash g deps u password) read _
                  (λ u' e. after_renewal u has u' _ e m (not_false f) renewal valid)
                  (λ r f' ne. no_renewal u has r _ f' ne m (not_false f) renewal valid)
      where
        not_true : {b : Bool} → not b ≡ true → b ≡ false
        not_true {b} h = ground arith

        not_false : {b : Bool} → not b ≡ false → b ≡ true
        not_false {b} h = ground arith

    searched :
        Finding
          (dir.users w.store)
          login_names
          login_name
          (deps.user_storage.find_by_login_name login_name w.store).0
        → login_name ≢ ""
        → Q (
            (do
              user ←
                  map_error
                    (mask_service g)
                    (on_store (deps.user_storage.find_by_login_name login_name))
              authenticate_user g deps config user password)
              w)
    unfolding on_store
    searched (one u e at of _) h = rw e (authenticate_user-Authenticating u (at, of))
    searched (missing e none) h =
        rw e (unknown (λ id u at of. h (none id u at of)) refl (same, refl), read-IsValid)

    pub authenticate-Authenticating :
        Authenticating config login_name password w
          (authenticate g deps config login_name password w)
        × dir.IsValid (authenticate g deps config login_name password w).1.store
    unfolding authenticate
    authenticate-Authenticating =
        if_rule Q (login_name == "" || password == "") _ _ w
          (λ e. (no_argument (an_empty e) refl (λ i. refl, refl), v))
          (λ e.
            searched (dir.finding w.store v login_names login_name)
              (λ h. ground (arith, eq_iff login_name "")))
      where
        an_empty : login_name == "" || password == "" ≡ true → ((login_name ≡ "") ⊎ (password ≡ ""))
        an_empty e = ground (arith, eq_iff login_name "", eq_iff password "")
