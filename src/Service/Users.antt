-- ===== src/Service/Users.antt =====
-- service/service.go: the methods of `UserService` that create, read and change a user.
-- `log.Printf` is left out.
use userd.Common.{String, true, false, not, ◌||◌, [], ◌∷◌, ◌==◌, if◌then◌else◌}
use userd.Errors.{ErrGo, known, mask_service, invalid_arguments, invalid_verification_email}
use userd.User.{User, zero_user}
use userd.Exec.{Exec, pure, fail, abort, lift, map_error, attempt, ◌>>=◌, ◌>>◌}
use userd.Service.Backends.{Dependencies, World, Entry, text, on_store, on_salt, on_ids, spawn}

module _ (g : ErrGo) {S F H : Type 0} (deps : Dependencies S F H) where
  abbrev pub Action : Type 0 → Type 0
  Action A = Exec (World S F H) A

  unfoldable pub log_event : String → Entry → Action (Unit {0})
  log_event tag entry =
      attempt (lift (deps.marshal_entry entry)) (λ bytes. spawn tag bytes) (λ e. abort)

  -- `modifier` changes its own copy of the user, or fails; `success` sees the changed copy.
  unfoldable pub read_modify_write :
      String → (User → Action User) → (User → Action (Unit {0})) → Action (Unit {0})
  read_modify_write user_id modifier success = do
    user ← map_error (mask_service g) (on_store (deps.user_storage.get user_id))
    user' ← map_error (mask_service g) (modifier user)
    map_error (mask_service g) (on_store (deps.user_storage.save user'))
    success user'

  -- The user that `CreateUser` saves.
  abbrev pub new_user : (id profile_name email login_name password_hash : String) → User
  new_user id profile_name email login_name password_hash = record zero_user {
    id = id;
    profile_name = profile_name;
    email = email;
    email_verified = false;
    login_name = login_name;
    login_password_hash = password_hash;
  }

  unfoldable pub create_user :
      (profile_name email login_name login_password : String) → Action String
  create_user profile_name email login_name login_password =
      if profile_name == "" || email == "" || login_name == "" || login_password == ""
      then fail (known invalid_arguments)
      else do
        password_hash ← on_salt (deps.hasher.hash login_password)
        new_user_id ← on_ids deps.id_factory.new_user_id
        map_error (mask_service g) (
            on_store (
              deps.user_storage.save
                (new_user new_user_id profile_name email login_name password_hash)))
        log_event "user.created" (
            ("user_id", text new_user_id)
            ∷ ("profile_name", text profile_name)
            ∷ ("email", text email)
            ∷ [])
        pure new_user_id

  unfoldable pub get_user : String → Action User
  get_user id = map_error (mask_service g) (on_store (deps.user_storage.get id))

  unfoldable pub change_login_credentials :
      (user_id new_login new_password : String) → Action (Unit {0})
  change_login_credentials user_id new_login new_password =
      if user_id == "" || new_login == "" || new_password == ""
      then fail (known invalid_arguments)
      else read_modify_write user_id
          (λ user. do
            password_hash ← on_salt (deps.hasher.hash new_password)
            pure (record user { login_name = new_login; login_password_hash = password_hash }))
          (λ user. log_event "user.change_login_credentials" (("user_id", text user_id) ∷ []))

  unfoldable pub change_profile_name : (user_id profile_name : String) → Action (Unit {0})
  change_profile_name user_id profile_name =
      if user_id == "" || profile_name == ""
      then fail (known invalid_arguments)
      else read_modify_write user_id (λ user. pure (record user { profile_name = profile_name }))
          (λ user.
            log_event "user.change_profile_name"
              (("user_id", text user_id) ∷ ("profile_name", text profile_name) ∷ []))

  unfoldable pub change_email : (user_id email : String) → Action (Unit {0})
  change_email user_id email =
      if user_id == "" || email == ""
      then fail (known invalid_arguments)
      else read_modify_write user_id (λ user. pure (record user { email = email }))
          (λ user.
            log_event "user.change_email" (("user_id", text user_id) ∷ ("email", text email) ∷ []))

  -- The event of the two methods that verify an email.
  unfoldable pub log_verified : User → Action (Unit {0})
  log_verified user =
      log_event "user.email_verified" (("user_id", text user.id) ∷ ("email", text user.email) ∷ [])

  unfoldable pub set_email_verified : String → Action (Unit {0})
  set_email_verified user_id =
      if user_id == ""
      then fail (known invalid_arguments)
      else read_modify_write user_id (λ user. pure (record user { email_verified = true }))
          log_verified

  unfoldable pub check_and_set_email_verified : (user_id email : String) → Action (Unit {0})
  check_and_set_email_verified user_id email =
      if user_id == "" || email == ""
      then fail (known invalid_arguments)
      else read_modify_write user_id
          (λ user.
            if not (user.email == email)
            then fail (known invalid_verification_email)
            else pure (record user { email_verified = true }))
          log_verified
