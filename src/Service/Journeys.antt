-- ===== src/Service/Journeys.antt =====
-- What a user sees over several calls: logging in with a new login, and bringing a reset token again.
use userd.Common.{
  String, ◌≡◌, ◌≢◌, refl, sym, ap, ◌∙◌, inl, inr, arith, Option, some, true, false, not, ◌&&◌, ◌==◌,
  eq_iff, text_cases, ◌||◌,
}
use userd.Errors.{ErrGo, is_not_found_error, known, mask_service, invalid_arguments}
use userd.User.{User}
use userd.Exec.{ok, err, if_rule}
use userd.Storage.Interface.{login_names, reset_password_tokens}
use userd.Storage.Directory.{IsDirectory, store, Finding, one, missing}
use userd.Service.Backends.{PasswordHasher, Config, Dependencies, World, Entry, on_store}
use userd.Service.Users.{change_login_credentials}
use userd.Service.Login.{authenticate, reset_credentials_with_token}
use userd.Service.Effects.{effect_of_ok}
use userd.Service.Changes.{change_login_credentials-Effect}
use userd.Service.Reset.{reset_credentials_with_token-Effect}
use userd.Service.Authenticate.{
  must_verify, Authenticating, no_argument, unknown, not_verified, wrong_password, accepted,
  hasher_failed, authenticate-Authenticating,
}

-- What the hasher makes of a password verifies that password, and needs no new hash.
abbrev pub IsStable : {H : Type 0} → PasswordHasher H → Type 0
IsStable {H} hasher =
    (password : String) (salt : H) (hash : String)
    → (hasher.hash password salt).0 ≡ ok hash
    → (hasher.verify password hash ≡ true) × (hasher.needs_rehash hash ≡ ok false)

module _ (g : ErrGo) {S F H : Type 0} (deps : Dependencies S F H)
    (dir : IsDirectory g deps.user_storage) (storable : (u : User) → dir.IsStorable u)
    (marshals : (e : Entry) → (bytes : String) × (deps.marshal_entry e ≡ ok bytes)) where
  some_eq : {u v : User} → some u ≡ some v → u ≡ v
  some_eq e = cc

  -- The user with a login name is the one that is found by it.
  same_login :
      (w : World S F H)
      → dir.IsValid w.store
      → (id : String) (u v : User) → dir.users w.store id ≡ some u
      → dir.users w.store v.id ≡ some v
      → v.login_name ≡ u.login_name
      → v ≡ u
  same_login w valid id u v at_u at_v same =
      let (own, complete) = dir.well_formed w.store valid id u at_u in
      let ids =
        dir.unique w.store valid login_names id v.id u v at_u at_v (sym same)
          (λ e. complete (inr (inr e))) in
      some_eq (sym at_v ∙ ap (dir.users w.store) (sym ids) ∙ at_u)

  stored : (x : User) (d : String → Option User) (id : String) → x.id ≡ id → store x d id ≡ some x
  stored x d id e = ground (arith, eq_iff x.id id)

  module _ (config : Config) (login_name password : String) where
    -- Authenticate at a stored user, given what does not stop it.
    accepts :
        (w : World S F H)
        → dir.IsValid w.store
        → (id : String) (u : User) → dir.users w.store id ≡ some u
        → u.login_name ≡ login_name
        → password ≢ ""
        → must_verify g deps dir storable marshals config u ≡ false
        → deps.hasher.verify password u.login_password_hash ≡ true
        → deps.hasher.needs_rehash u.login_password_hash ≡ ok false
        → (authenticate g deps config login_name password w).0 ≡ ok id
    accepts w valid id u at of filled verified matches kept =
        cases
          (authenticate-Authenticating g deps dir storable marshals config login_name password w
            valid).0
      where
        own : (v : User) → dir.users w.store v.id ≡ some v → v.login_name ≡ login_name → v ≡ u
        own v at_v of_v = same_login w valid id u v at at_v (of_v ∙ sym of)

        same_hash :
            (v : User)
            → v ≡ u
            → deps.hasher.needs_rehash v.login_password_hash
              ≡ deps.hasher.needs_rehash u.login_password_hash
        same_hash v e = ap (λ (x : User). deps.hasher.needs_rehash x.login_password_hash) e

        cases :
            Authenticating g deps dir storable marshals config login_name password w
              (authenticate g deps config login_name password w)
            → (authenticate g deps config login_name password w).0 ≡ ok id
        cases (no_argument (inl e) _ _) =
            absurd ((dir.well_formed w.store valid id u at).1 (inr (inr (of ∙ e))))
        cases (no_argument (inr e) _ _) = absurd (filled e)
        cases (unknown none _ _) = absurd (none id u at of)
        cases (not_verified v (at_v, of_v) m _ _) =
            ground (arith, ap (must_verify g deps dir storable marshals config) (own v at_v of_v))
        cases (wrong_password v (at_v, of_v) _ m _ _) = ground (
          arith,
          ap (λ (x : User). deps.hasher.verify password x.login_password_hash) (own v at_v of_v),
        )
        cases (accepted v _ (at_v, of_v) _ _ e _ _ _) =
            e
            ∙ ap ok (
                ap (λ (x : User). x.id) (own v at_v of_v)
                ∙ (dir.well_formed w.store valid id u at).0)
        cases (hasher_failed v (at_v, of_v) _ _ (inl fails) _ _) =
            absurd (fails false (same_hash v (own v at_v of_v) ∙ kept))
        cases (hasher_failed v (at_v, of_v) _ _ (inr (needs, _)) _ _) =
            let e : ok true ≡ ok false = sym needs ∙ same_hash v (own v at_v of_v) ∙ kept in cc

  -- After ChangeLoginCredentials succeeds, Authenticate accepts the new login name and password and
  -- returns the id, where the user's email is verified or need not be, for a password that is not
  -- empty and a hasher whose hash of a password verifies that password and needs no new hash.
  pub authenticate-change_login_credentials :
      (config : Config) (user_id login_name password : String) (w : World S F H) (u : User)
      → dir.IsValid w.store
      → IsStable deps.hasher
      → password ≢ ""
      → dir.users w.store user_id ≡ some u
      → must_verify g deps dir storable marshals config u ≡ false
      → (change_login_credentials g deps user_id login_name password w).0 ≡ ok tt
      → (authenticate g deps config login_name password
          (change_login_credentials g deps user_id login_name password w).1).0
        ≡ ok user_id
  authenticate-change_login_credentials config user_id login_name password w u valid stable filled
        at verified succeeds =
      let (effect, valid') =
        change_login_credentials-Effect g deps dir storable marshals user_id login_name password w
          valid in
      let (u', (v, at_v, (salt, hash, drawn, changed)), now) =
        effect_of_ok g deps dir tt effect succeeds in
      let old : v ≡ u = some_eq (sym at_v ∙ at) in
      let new : u' ≡ record u { login_name = login_name; login_password_hash = hash } =
        changed
        ∙ ap (λ (x : User). record x { login_name = login_name; login_password_hash = hash }) old in
      let own = (dir.well_formed w.store valid user_id u at).0 in
      accepts config login_name password
        (change_login_credentials g deps user_id login_name password w).1 valid' user_id
        (record u { login_name = login_name; login_password_hash = hash })
        (now user_id
          ∙ ap (λ x. store x (dir.users w.store) user_id) new
          ∙ stored _ (dir.users w.store) user_id own)
        refl filled verified (stable password salt hash drawn).0 (stable password salt hash drawn).1

  -- After ResetCredentialsWithToken succeeds and returns an id, Authenticate accepts the new login name
  -- and password and returns the id, where the configuration asks for no verified email, for a password
  -- that is not empty and a hasher whose hash of a password verifies that password and needs no new
  -- hash.
  pub authenticate-reset_credentials_with_token :
      (config : Config) (token login_name password id : String) (w : World S F H)
      → dir.IsValid w.store
      → IsStable deps.hasher
      → password ≢ ""
      → config.auth_email_must_be_verified ≡ false
      → (reset_credentials_with_token g deps config token login_name password w).0 ≡ ok id
      → (authenticate g deps config login_name password
          (reset_credentials_with_token g deps config token login_name password w).1).0
        ≡ ok id
  authenticate-reset_credentials_with_token config token login_name password id w valid stable
        filled free succeeds =
      let (effect, valid') =
        reset_credentials_with_token-Effect g deps dir storable marshals config token login_name
          password w valid in
      let (u', (u, issued, hash, at, _, _, _, _, drawn, own, changed), now) =
        effect_of_ok g deps dir id effect succeeds in
      accepts config login_name password
        (reset_credentials_with_token g deps config token login_name password w).1 valid' id u'
        (now id ∙ stored u' (dir.users w.store) id (ap (λ (x : User). x.id) changed ∙ sym own))
        (ap (λ (x : User). x.login_name) changed) filled (ap (λ b. b && not u'.email_verified) free)
        (ap (deps.hasher.verify password) (ap (λ (x : User). x.login_password_hash) changed)
          ∙ (stable password w.salt hash drawn).0)
        (ap deps.hasher.needs_rehash (ap (λ (x : User). x.login_password_hash) changed)
          ∙ (stable password w.salt hash drawn).1)

  -- A token that no user has.
  unknown_token :
      (config : Config) (token login_name password : String) (w : World S F H)
      → Finding
          (dir.users w.store)
          reset_password_tokens
          token
          (deps.user_storage.find_by_reset_password_token token w.store).0
      → ((id : String) (u : User)
          → dir.users w.store id ≡ some u
          → u.reset_password_token ≡ token
          → token ≡ "")
      → (reset_credentials_with_token g deps config token login_name password w).0
        ≡ err (mask_service g (known invalid_arguments))
  unfolding reset_credentials_with_token on_store is_not_found_error
  unknown_token config token login_name password w (one u e at of filled) nobody =
      absurd (filled (nobody u.id u at of))
  unknown_token config token login_name password w (missing e _) nobody =
      if_rule (λ r. r.0 ≡ err (mask_service g (known invalid_arguments)))
        (token == "" || login_name == "" || password == "") _ _ w (λ _. refl) (λ _. rw e)

  -- Once ResetCredentialsWithToken has succeeded with a token, every further call with that token, at
  -- once, with whatever login, fails with InvalidArguments, masked.
  pub reset_credentials_with_token_once :
      (config : Config) (token login_name password id : String) (w : World S F H)
      → dir.IsValid w.store
      → (reset_credentials_with_token g deps config token login_name password w).0 ≡ ok id
      → (config' : Config) (login_name' password' : String)
      → (reset_credentials_with_token g deps config' token login_name' password'
          (reset_credentials_with_token g deps config token login_name password w).1).0
        ≡ err (mask_service g (known invalid_arguments))
  reset_credentials_with_token_once config token login_name password id w valid succeeds config'
        login_name' password' =
      let (effect, valid') =
        reset_credentials_with_token-Effect g deps dir storable marshals config token login_name
          password w valid in
      let (u', (u, issued, hash, at, of, filled, _, _, drawn, own, changed), now) =
        effect_of_ok g deps dir id effect succeeds in
      let w' = (reset_credentials_with_token g deps config token login_name password w).1 in
      unknown_token config' token login_name' password' w'
        (dir.finding w'.store valid' reset_password_tokens token)
        (λ i v at_v of_v. elim (text_cases u'.id i) [
          | inl (eq, mine) ↦
              let e : some u' ≡ some v = rw eq at (sym (now i) ∙ at_v) in
              sym of_v ∙ ap (λ (x : User). x.reset_password_token) (sym (some_eq e) ∙ changed)
          | inr (eq, other) ↦
              let before : dir.users w.store i ≡ some v = rw eq at (sym (now i) ∙ at_v) in
              absurd (
                other (
                  ap (λ (x : User). x.id) changed
                  ∙ dir.unique w.store valid reset_password_tokens u.id i u v at before
                      (of ∙ sym of_v) (λ z. filled (sym of ∙ z))))
        ])
