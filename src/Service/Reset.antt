-- ===== src/Service/Reset.antt =====
-- What the two methods that reset a login do to the users and to the events.
use userd.Common.{String, ◌≡◌, ◌≢◌, refl, [], ◌∷◌, some, none, Option, false, ◌||◌, ◌==◌}
use userd.Errors.{ErrGo, is_not_found_error, mask_service}
use userd.User.{User, Time}
use userd.Exec.{Outcome, ok, lift, map_error, bind_rule, attempt_rule, if_rule, map_outcome-eq-ok}
use userd.Storage.Interface.{emails, reset_password_tokens}
use userd.Storage.Directory.{IsDirectory, SameUsers, found_by}
use userd.Service.Backends.{
  Config, Dependencies, World, Entry, text, instant, after_by, on_store, on_salt, on_ids, now,
}
use userd.Service.Login.{
  new_reset_login_credentials_token, is_expired, reset_credentials, reset_credentials_with_token,
}
use userd.Service.Effects.{failed, save_then_log, log_event_lem}
use userd.Service.Methods.{Does, stops}

module _ (g : ErrGo) {S F H : Type 0} (deps : Dependencies S F H)
    (dir : IsDirectory g deps.user_storage) (storable : (u : User) → dir.IsStorable u)
    (marshals : (e : Entry) → (bytes : String) × (deps.marshal_entry e ≡ ok bytes)) where
  -- The user with the email has the new token, issued now.
  abbrev pub TokenIssued : (email : String) → World S F H → String → User → Type 0
  TokenIssued email w token u' =
      (u : User) × (dir.users w.store u.id ≡ some u)
      × (u.email ≡ email)
      × (token ≡ (deps.id_factory.new_reset_password_token w.ids).0)
      × (u' ≡ record u { reset_password_token = token; reset_password_token_issued = some w.clock })

  abbrev pub token_entry : User → Entry
  token_entry u =
      ("user_id", text u.id)
      ∷ ("email", text u.email)
      ∷ ("token", text u.reset_password_token)
      ∷ ("timestamp", instant u.reset_password_token_issued)
      ∷ []

  -- From a valid storage, NewResetLoginCredentialsToken either gives the user with the email the next
  -- token of the factory, issued now, changes nothing else, and logs the event, or fails and changes
  -- no user and logs nothing. The storage stays valid.
  pub new_reset_login_credentials_token-Effect :
      (email : String) (w : World S F H)
      → dir.IsValid w.store
      → Does g deps dir storable marshals
          (TokenIssued email w)
          "user.new_reset_login_credentials_token"
          token_entry
          w
          (new_reset_login_credentials_token g deps email w)
  unfolding new_reset_login_credentials_token on_store on_ids now
  new_reset_login_credentials_token-Effect email w v =
      if_rule Q (email == "") _ _ w (λ _. stops g deps dir storable marshals w _ v tt)
        (λ _.
          bind_rule Q
            (map_error (mask_service g) (on_store (deps.user_storage.find_by_email email))) w _
            (λ u e.
              let (at, email_of, _) =
                found_by u (dir.finding w.store v emails email) (map_outcome-eq-ok _ _ e) in
              save_then_log g deps dir storable marshals (TokenIssued email w)
                "user.new_reset_login_credentials_token" token_entry token _
                (record u {
                  reset_password_token = token;
                  reset_password_token_issued = some w.clock;
                })
                (λ bytes w' h.
                  rw (
                    log_event_lem g deps dir "user.new_reset_login_credentials_token" _ bytes w' h))
                _ w valid same refl (u, at, email_of, refl, refl))
            (λ r f ne. (failed f same refl, valid)))
    where
      Q : Outcome String × World S F H → Type 0
      Q r =
          Does g deps dir storable marshals (TokenIssued email w)
            "user.new_reset_login_credentials_token" token_entry w r

      read : World S F H
      read = record w { store = (deps.user_storage.find_by_email email w.store).1 }

      same : SameUsers (dir.users read.store) (dir.users w.store)
      same = dir.find-users w.store v emails email

      valid : dir.IsValid read.store
      valid = dir.find-IsValid w.store v emails email

      token : String
      token = (deps.id_factory.new_reset_password_token w.ids).0

  -- The owner of the token, issued at a time from which it has not expired, has the new login, and
  -- no token.
  abbrev pub LoginReset :
      Config → (token login_name password : String) → World S F H → String → User → Type 0
  LoginReset config token login_name password w id u' =
      (u : User) × (issued : Time) × (hash : String) × (dir.users w.store u.id ≡ some u)
      × (u.reset_password_token ≡ token)
      × (token ≢ "")
      × (u.reset_password_token_issued ≡ some issued)
      × (after_by w.clock issued config.reset_password_expire_time ≡ false)
      × ((deps.hasher.hash password w.salt).0 ≡ ok hash)
      × (id ≡ u.id)
      × (u' ≡ record u {
        login_name = login_name;
        login_password_hash = hash;
        reset_password_token = "";
        reset_password_token_issued = none;
      })

  abbrev pub reset_entry : User → Entry
  reset_entry u = ("user_id", text u.id) ∷ []

  not_expired :
      (config : Config) (t : Time) (o : Option Time)
      → is_expired g deps config t o ≡ ok false
      → (issued : Time) × (o ≡ some issued)
        × (after_by t issued config.reset_password_expire_time ≡ false)
  unfolding is_expired
  not_expired config t none h = cc
  not_expired config t (some issued) h = (issued, refl, cc)

  -- From a valid storage, ResetCredentialsWithToken either gives the owner of the token, which has not
  -- expired, the new login name and the hash of the new password, takes the token away, changes
  -- nothing else, and logs the event, or fails and changes no user and logs nothing. The storage
  -- stays valid.
  pub reset_credentials_with_token-Effect :
      (config : Config) (token login_name password : String) (w : World S F H)
      → dir.IsValid w.store
      → Does g deps dir storable marshals
          (LoginReset config token login_name password w)
          "user.login_credentials_resetted"
          reset_entry
          w
          (reset_credentials_with_token g deps config token login_name password w)
  unfolding reset_credentials_with_token reset_credentials on_store on_salt now
  reset_credentials_with_token-Effect config token login_name password w v =
      if_rule Q (token == "" || login_name == "" || password == "") _ _ w
        (λ _. stops g deps dir storable marshals w _ v tt)
        (λ _.
          attempt_rule Q (on_store (deps.user_storage.find_by_reset_password_token token)) w _ _
            (λ u e.
              let (at, token_of, filled) =
                found_by u (dir.finding w.store v reset_password_tokens token) e in
              bind_rule Q (lift (is_expired g deps config w.clock u.reset_password_token_issued))
                read _
                (λ expired late.
                  if_rule Q expired _ _ read (λ _. (failed tt same refl, valid))
                    (λ early.
                      bind_rule Q (on_salt (deps.hasher.hash password)) read _
                        (λ hash drawn.
                          let (issued, at_time, fresh) =
                            not_expired config w.clock u.reset_password_token_issued
                              (rw early at late) in
                          save_then_log g deps dir storable marshals
                            (LoginReset config token login_name password w)
                            "user.login_credentials_resetted" reset_entry u.id _ (reset u hash)
                            (λ bytes w' h. rw (
                              log_event_lem g deps dir "user.login_credentials_resetted" _ bytes w'
                                h))
                            _ w valid same refl
                            (
                              u, issued, hash, at, token_of, filled, at_time, fresh, drawn, refl,
                              refl,
                            ))
                        (λ r f ne. (failed f same refl, valid))))
                (λ r f ne. (failed f same refl, valid)))
            (λ x e.
              if_rule Q (is_not_found_error x) _ _ read (λ _. (failed tt same refl, valid))
                (λ _. (failed tt same refl, valid)))
            (λ _. (failed tt same refl, valid)))
    where
      Q : Outcome String × World S F H → Type 0
      Q r =
          Does g deps dir storable marshals (LoginReset config token login_name password w)
            "user.login_credentials_resetted" reset_entry w r

      read : World S F H
      read = record w { store = (deps.user_storage.find_by_reset_password_token token w.store).1 }

      same : SameUsers (dir.users read.store) (dir.users w.store)
      same = dir.find-users w.store v reset_password_tokens token

      valid : dir.IsValid read.store
      valid = dir.find-IsValid w.store v reset_password_tokens token

      reset : User → String → User
      reset u hash = record u {
        login_name = login_name;
        login_password_hash = hash;
        reset_password_token = "";
        reset_password_token_issued = none;
      }
