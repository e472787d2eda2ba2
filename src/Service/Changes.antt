-- ===== src/Service/Changes.antt =====
-- What the methods that change a stored user do to the users and to the events.
use userd.Common.{
  String, ◌≡◌, ◌≢◌, refl, [], ◌∷◌, arith, some, Bool, true, false, ◌||◌, ◌==◌, eq_iff,
  if◌then◌else◌,
}
use userd.Errors.{ErrGo, known, invalid_arguments}
use userd.User.{User}
use userd.Exec.{Outcome, ok, err, panic, Exec, pure, fail, continue, if_rule}
use userd.Storage.Directory.{IsDirectory}
use userd.Service.Backends.{Dependencies, World, Entry, text, on_salt}
use userd.Service.Users.{
  change_login_credentials, change_profile_name, change_email, log_verified, log_event,
  read_modify_write, set_email_verified, check_and_set_email_verified,
}
use userd.Service.Effects.{Leaves, Changed, read_modify_write-Effect}
use userd.Service.Methods.{Does, stops}

module _ (g : ErrGo) {S F H : Type 0} (deps : Dependencies S F H)
    (dir : IsDirectory g deps.user_storage) (storable : (u : User) → dir.IsStorable u)
    (marshals : (e : Entry) → (bytes : String) × (deps.marshal_entry e ≡ ok bytes)) where
  -- A method that tests its arguments and then changes the user with an id.
  module _ {Modified : User → User → Type 0} {tag : String} {entry : User → Entry}
      {modifier : User → Exec (World S F H) User}
      (leaves : (u : User) → Leaves g deps dir (modifier u))
      (modifies : (u u' : User) (w : World S F H) → (modifier u w).0 ≡ ok u' → Modified u u') where
    guarded :
        (user_id : String) (empty : Bool) (w : World S F H)
        → dir.IsValid w.store
        → (empty ≡ false → user_id ≢ "")
        → Does g deps dir storable marshals
            (Changed g deps dir storable marshals user_id tag entry modifier Modified leaves
              modifies w)
            tag
            entry
            w
            ((if empty
                then fail (known invalid_arguments)
                else read_modify_write g deps user_id modifier
                    (λ u. log_event g deps tag (entry u)))
              w)
    guarded user_id empty w v h =
        if_rule
          (Does g deps dir storable marshals
            (Changed g deps dir storable marshals user_id tag entry modifier Modified leaves
              modifies w)
            tag entry w)
          empty _ _ w (λ _. stops g deps dir storable marshals w _ v tt)
          (λ e.
            read_modify_write-Effect g deps dir storable marshals user_id tag entry modifier
              Modified leaves modifies w v (h e))

  -- The change of the stored user, whose id and other fields stay.
  abbrev pub ChangeOf : World S F H → String → (User → User → Type 0) → Unit {0} → User → Type 0
  ChangeOf w user_id Modified _ u' =
      (u : User) × (dir.users w.store user_id ≡ some u) × Modified u u'

  -- From a valid storage, ChangeProfileName either replaces the profile name of the stored user alone
  -- and logs the event, or fails and changes no user and logs nothing. The storage stays valid.
  pub change_profile_name-Effect :
      (user_id profile_name : String) (w : World S F H)
      → dir.IsValid w.store
      → Does g deps dir storable marshals
          (ChangeOf w user_id (λ u u'. u' ≡ record u { profile_name = profile_name }))
          "user.change_profile_name"
          (λ _. ("user_id", text user_id) ∷ ("profile_name", text profile_name) ∷ [])
          w
          (change_profile_name g deps user_id profile_name w)
  unfolding change_profile_name
  change_profile_name-Effect user_id profile_name w v =
      guarded (λ u. record { keeps_store = λ w. refl; keeps_tasks = λ w. refl })
        (λ u u' w e. ground arith) user_id (user_id == "" || profile_name == "") w v
        (λ e. ground (arith, eq_iff user_id ""))

  -- From a valid storage, ChangeEmail either replaces the email of the stored user alone, to one that no
  -- other user has, and logs the event, or fails and changes no user and logs nothing. So an email
  -- that was verified counts as verified after it is changed. The storage stays valid.
  pub change_email-Effect :
      (user_id email : String) (w : World S F H)
      → dir.IsValid w.store
      → Does g deps dir storable marshals
          (ChangeOf w user_id (λ u u'. u' ≡ record u { email = email }))
          "user.change_email"
          (λ _. ("user_id", text user_id) ∷ ("email", text email) ∷ [])
          w
          (change_email g deps user_id email w)
  unfolding change_email
  change_email-Effect user_id email w v =
      guarded (λ u. record { keeps_store = λ w. refl; keeps_tasks = λ w. refl })
        (λ u u' w e. ground arith) user_id (user_id == "" || email == "") w v
        (λ e. ground (arith, eq_iff user_id ""))

  abbrev pub verified_entry : User → Entry
  verified_entry u = ("user_id", text u.id) ∷ ("email", text u.email) ∷ []

  -- From a valid storage, SetEmailVerified either marks the stored user's email as verified, changes
  -- nothing else, and logs the event, or fails and changes no user and logs nothing. The storage
  -- stays valid.
  pub set_email_verified-Effect :
      (user_id : String) (w : World S F H)
      → dir.IsValid w.store
      → Does g deps dir storable marshals
          (ChangeOf w user_id (λ u u'. u' ≡ record u { email_verified = true }))
          "user.email_verified"
          verified_entry
          w
          (set_email_verified g deps user_id w)
  unfolding set_email_verified log_verified
  set_email_verified-Effect user_id w v =
      guarded (λ u. record { keeps_store = λ w. refl; keeps_tasks = λ w. refl })
        (λ u u' w e. ground arith) user_id (user_id == "") w v
        (λ e. ground (arith, eq_iff user_id ""))

  -- From a valid storage, CheckAndSetEmailVerified either marks the email as verified of a stored user
  -- that has the given email, changes nothing else, and logs the event, or fails and changes no user
  -- and logs nothing. The storage stays valid.
  pub check_and_set_email_verified-Effect :
      (user_id email : String) (w : World S F H)
      → dir.IsValid w.store
      → Does g deps dir storable marshals
          (ChangeOf w user_id
            (λ u u'. (u.email ≡ email) × (u' ≡ record u { email_verified = true })))
          "user.email_verified"
          verified_entry
          w
          (check_and_set_email_verified g deps user_id email w)
  unfolding check_and_set_email_verified log_verified
  check_and_set_email_verified-Effect user_id email w v =
      guarded (λ u. record { keeps_store = λ w. ground arith; keeps_tasks = λ w. ground arith })
        (λ u u' w e. ground (arith, eq_iff u.email email)) user_id (user_id == "" || email == "") w
        v (λ e. ground (arith, eq_iff user_id ""))

  -- From a valid storage, ChangeLoginCredentials either replaces the login name and the hash of the
  -- stored user alone, by the given name and a hash that the hasher made of the password, and logs the
  -- event, or fails and changes no user and logs nothing. The storage stays valid.
  pub change_login_credentials-Effect :
      (user_id login password : String) (w : World S F H)
      → dir.IsValid w.store
      → Does g deps dir storable marshals
          (ChangeOf w user_id (λ u u'.
            (salt : H) × (hash : String) × ((deps.hasher.hash password salt).0 ≡ ok hash)
            × (u' ≡ record u { login_name = login; login_password_hash = hash })))
          "user.change_login_credentials"
          (λ _. ("user_id", text user_id) ∷ [])
          w
          (change_login_credentials g deps user_id login password w)
  unfolding change_login_credentials on_salt
  change_login_credentials-Effect user_id login password w v =
      guarded (λ u. record { keeps_store = λ w. ground arith; keeps_tasks = λ w. ground arith })
        (λ u u' w e.
          let (h, drawn, same) = hashed u u' (deps.hasher.hash password w.salt).0 _ e in
          (w.salt, h, drawn, same))
        user_id (user_id == "" || login == "" || password == "") w v
        (λ e. ground (arith, eq_iff user_id ""))
    where
      hashed :
          (u u' : User) (r : Outcome String) (w : World S F H)
          → (continue r
              (λ hash. pure (record u { login_name = login; login_password_hash = hash }))
              w).0
            ≡ ok u'
          → (hash : String) × (r ≡ ok hash)
            × (u' ≡ record u { login_name = login; login_password_hash = hash })
      hashed u u' (ok hash) w e = (hash, refl, cc)
      hashed u u' (err x) w e = cc
      hashed u u' panic w e = cc
