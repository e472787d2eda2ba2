-- ===== src/Service/Login.antt =====
-- service/service.go: the methods of `UserService` that authenticate a user or reset the login.
use userd.Common.{String, Bool, not, ◌&&◌, ◌||◌, [], ◌∷◌, Option, none, some, ◌==◌, if◌then◌else◌}
use userd.Errors.{
  ErrGo, known, mask_service, is_not_found_error, invalid_arguments, invalid_credentials,
  reset_password_token_expired, user_email_must_be_verified,
}
use userd.User.{Time, User}
use userd.Exec.{Outcome, ok, panic, pure, fail, lift, map_error, attempt, ignore, ◌>>=◌, ◌>>◌}
use userd.Service.Backends.{
  Config, Dependencies, text, instant, after_by, on_store, on_salt, on_ids, now,
}
use userd.Service.Users.{Action, log_event}

module _ (g : ErrGo) {S F H : Type 0} (deps : Dependencies S F H) where
  -- The part of `Authenticate` behind the password check: the error of `Save` is dropped.
  unfoldable pub rehash : User → String → Action g deps User
  rehash user login_password = do
    needs_rehash ← lift (deps.hasher.needs_rehash user.login_password_hash)
    if not needs_rehash then pure user else do
      password_hash ← on_salt (deps.hasher.hash login_password)
      let rehashed = record user { login_password_hash = password_hash }
      ignore (on_store (deps.user_storage.save rehashed))
      pure rehashed

  -- The part of `Authenticate` behind the search.
  unfoldable pub authenticate_user : Config → User → String → Action g deps String
  authenticate_user config user login_password =
      if config.auth_email_must_be_verified && not user.email_verified
      then fail (known user_email_must_be_verified)
      else if not (deps.hasher.verify login_password user.login_password_hash)
      then fail (known invalid_credentials)
      else do
        user' ← rehash user login_password
        log_event g deps "user.authenticated" (("user_id", text user'.id) ∷ [])
        pure user'.id

  unfoldable pub authenticate : Config → (login_name login_password : String) → Action g deps String
  authenticate config login_name login_password =
      if login_name == "" || login_password == "" then fail (known invalid_arguments) else do
        user ←
            map_error (mask_service g) (on_store (deps.user_storage.find_by_login_name login_name))
        authenticate_user config user login_password

  unfoldable pub new_reset_login_credentials_token : (email : String) → Action g deps String
  new_reset_login_credentials_token email =
      if email == "" then fail (known invalid_arguments) else do
        u ← map_error (mask_service g) (on_store (deps.user_storage.find_by_email email))
        issued ← now
        token ← on_ids deps.id_factory.new_reset_password_token
        let u' = record u {
          reset_password_token = token;
          reset_password_token_issued = some issued;
        }
        map_error (mask_service g) (on_store (deps.user_storage.save u'))
        log_event g deps "user.new_reset_login_credentials_token" (
            ("user_id", text u'.id)
            ∷ ("email", text u'.email)
            ∷ ("token", text u'.reset_password_token)
            ∷ ("timestamp", instant u'.reset_password_token_issued)
            ∷ [])
        pure u'.reset_password_token

  -- The test of the token's age; a token without a time of issue is a nil pointer.
  unfoldable pub is_expired : Config → Time → Option Time → Outcome Bool
  is_expired config t none = panic
  is_expired config t (some issued) = ok (after_by t issued config.reset_password_expire_time)

  -- The part of `ResetCredentialsWithToken` behind the search.
  unfoldable pub reset_credentials :
      Config → User → (login_name login_password : String) → Action g deps String
  reset_credentials config user new_login_name new_login_password = do
    t ← now
    expired ← lift (is_expired config t user.reset_password_token_issued)
    if expired then fail (mask_service g (known reset_password_token_expired)) else do
      password_hash ← on_salt (deps.hasher.hash new_login_password)
      let user' = record user {
        login_name = new_login_name;
        login_password_hash = password_hash;
        reset_password_token = "";
        reset_password_token_issued = none;
      }
      map_error (mask_service g) (on_store (deps.user_storage.save user'))
      log_event g deps "user.login_credentials_resetted" (("user_id", text user'.id) ∷ [])
      pure user'.id

  unfoldable pub reset_credentials_with_token :
      Config
      → (reset_password_token new_login_name new_login_password : String) → Action g deps String
  reset_credentials_with_token config reset_password_token new_login_name new_login_password =
      if reset_password_token == "" || new_login_name == "" || new_login_password == ""
      then fail (mask_service g (known invalid_arguments))
      else attempt (on_store (deps.user_storage.find_by_reset_password_token reset_password_token))
          (λ user. reset_credentials config user new_login_name new_login_password)
          (λ e.
            if is_not_found_error e
            then fail (mask_service g (known invalid_arguments))
            else fail (mask_service g e))
