-- ===== src/Service/Recovery.antt =====
-- The way back of a user who lost the password: a token by NewResetLoginCredentialsToken, and a new
-- login with it by ResetCredentialsWithToken.
use userd.Common.{
  String, ◌≡◌, ◌≢◌, refl, sym, ap, ◌∙◌, false, inl, inr, none, some, arith, eq_iff, text_cases,
  ◌==◌, if◌then◌else◌,
}
use userd.Errors.{ErrGo}
use userd.User.{Time, User}
use userd.Exec.{ok}
use userd.Storage.Interface.{Field, login_names, emails, reset_password_tokens, value, find}
use userd.Storage.RoundTrip.{same_user, finds}
use userd.Storage.Directory.{Directory, store, IsDirectory, IsFree, IsIncomplete, SameUsers}
use userd.Service.Backends.{
  Config, Dependencies, World, Entry, on_store, on_salt, on_ids, now, after_by,
}
use userd.Service.Login.{
  new_reset_login_credentials_token, is_expired, reset_credentials, reset_credentials_with_token,
}
use userd.Service.Effects.{effect_of_ok}
use userd.Service.Reset.{
  new_reset_login_credentials_token-Effect, reset_credentials_with_token-Effect,
}
use userd.Service.Success.{filled_test, save-ok, IsFreeAt, own-IsFreeAt, by_field, logs}

-- Of two users stored under one id, the second stays.
pub store-store :
    (x y : User) (users : Directory) (i : String)
    → x.id ≡ y.id
    → store x (store y users) i ≡ store x users i
store-store x y users i same = ground (arith, ap (λ k. k == i) same)

module _ (g : ErrGo) {S F H : Type 0} (deps : Dependencies S F H)
    (dir : IsDirectory g deps.user_storage) (storable : (u : User) → dir.IsStorable u)
    (marshals : (e : Entry) → (bytes : String) × (deps.marshal_entry e ≡ ok bytes)) where
  -- The next token of the factory, and the user who has it.
  abbrev pub next_token : World S F H → String
  next_token w = (deps.id_factory.new_reset_password_token w.ids).0

  abbrev pub with_token : World S F H → User → User
  with_token w u = record u {
    reset_password_token = next_token w;
    reset_password_token_issued = some w.clock;
  }

  module _ (id : String) (w : World S F H) (u : User) (valid : dir.IsValid w.store)
      (at : dir.users w.store id ≡ some u) where
    own_id : u.id ≡ id
    own_id = (dir.well_formed w.store valid id u at).0

    whole : ¬ IsIncomplete u
    whole = (dir.well_formed w.store valid id u at).1

    own_values :
        (u' : User) (f : Field)
        → u'.id ≡ id
        → value f u ≡ value f u'
        → IsFreeAt g deps dir storable marshals (dir.users w.store) u' f
    own_values u' f = own-IsFreeAt g deps dir storable marshals w.store id u u' f valid at

    -- Save behind a search.
    save_found :
        (f : Field) (key : String) (u' : User)
        → ¬ IsIncomplete u'
        → IsFree (dir.users w.store) u'
        → (deps.user_storage.save u' (find deps.user_storage f key w.store).1).0 ≡ ok tt
    save_found f key u' complete free =
        save-ok g deps dir storable marshals (find deps.user_storage f key w.store).1 u'
          (dir.find-IsValid w.store valid f key) complete
          (λ h i v stored. free h i v (sym (dir.find-users w.store valid f key i) ∙ stored))

    -- From a valid storage, NewResetLoginCredentialsToken at a stored user's email succeeds and
    -- returns the factory's next token, if no other user has that token.
    pub new_reset_login_credentials_token-ok :
        IsFreeAt g deps dir storable marshals
          (dir.users w.store)
          (with_token w u)
          reset_password_tokens
        → (new_reset_login_credentials_token g deps u.email w).0 ≡ ok (next_token w)
    unfolding new_reset_login_credentials_token on_store on_ids now
    new_reset_login_credentials_token-ok free =
        let found : (deps.user_storage.find_by_email u.email w.store).0 ≡ ok u =
          finds g deps.user_storage dir w.store id u emails valid at (λ e. whole (inr (inl e))) in
        let saved = save_found emails u.email (with_token w u) whole (
          by_field g deps dir storable marshals (dir.users w.store) (with_token w u)
            (own_values (with_token w u) login_names own_id refl)
            (own_values (with_token w u) emails own_id refl) free) in
        rw (
          filled_test (λ e. whole (inr (inl e))),
          found,
          saved,
          logs g deps dir storable marshals _ _ _,
        )

    module _ (config : Config) (issued : Time) (login_name password hash : String) where
      abbrev renewed : User
      renewed = record u {
        login_name = login_name;
        login_password_hash = hash;
        reset_password_token = "";
        reset_password_token_issued = none;
      }

      -- From a valid storage, ResetCredentialsWithToken succeeds and returns the owner's id, for the
      -- token of a stored user that has not expired, and a login name and a password that are not
      -- empty, if no other user has the login name and the hasher does not panic.
      pub reset_credentials_with_token-ok :
          u.reset_password_token ≢ ""
          → u.reset_password_token_issued ≡ some issued
          → after_by w.clock issued config.reset_password_expire_time ≡ false
          → login_name ≢ ""
          → password ≢ ""
          → (deps.hasher.hash password w.salt).0 ≡ ok hash
          → IsFreeAt g deps dir storable marshals (dir.users w.store) renewed login_names
          → (reset_credentials_with_token g deps config u.reset_password_token login_name password
              w).0
            ≡ ok id
      unfolding reset_credentials_with_token reset_credentials is_expired on_store on_salt now
      reset_credentials_with_token-ok has_token at_time fresh filled filled' hashed free =
          let found : (deps.user_storage.find_by_reset_password_token u.reset_password_token
                w.store).0
              ≡ ok u =
            finds g deps.user_storage dir w.store id u reset_password_tokens valid at has_token in
          let saved =
            save_found reset_password_tokens u.reset_password_token renewed
              (elim [
                | inl e ↦ whole (inl e)
                | inr (inl e) ↦ whole (inr (inl e))
                | inr (inr e) ↦ filled e
              ])
              (by_field g deps dir storable marshals (dir.users w.store) renewed free
                (own_values renewed emails own_id refl)
                (λ i v _ _ no_token. absurd (no_token refl))) in
          rw
            (
              filled_test has_token,
              filled_test filled,
              filled_test filled',
              found,
              at_time,
              fresh,
              hashed,
              saved,
              logs g deps dir storable marshals _ _ _,
            )
            (ap ok own_id)

      -- Where it succeeds at that user's token, that user alone changes, and has the new login.
      reset_users :
          u.reset_password_token ≢ ""
          → (deps.hasher.hash password w.salt).0 ≡ ok hash
          → (reset_credentials_with_token g deps config u.reset_password_token login_name password
              w).0
            ≡ ok id
          → SameUsers
              (dir.users
                (reset_credentials_with_token g deps config u.reset_password_token login_name
                  password w).1.store)
              (store renewed (dir.users w.store))
      reset_users has_token hashed succeeds i =
          let (effect, _) =
            reset_credentials_with_token-Effect g deps dir storable marshals config
              u.reset_password_token login_name password w valid in
          let (u', (v, _, hash', at_v, same, _, _, _, drawn, _, changed), now) =
            effect_of_ok g deps dir id effect succeeds in
          let hash_eq : hash' ≡ hash = cc in
          let owner : v ≡ u =
            same_user g deps.user_storage dir w.store id u v reset_password_tokens valid at at_v
              same has_token in
          now i
          ∙ ap (λ x. store x (dir.users w.store) i)
              (changed
                ∙ ap
                    (λ (x : User). record x {
                      login_name = login_name;
                      login_password_hash = hash';
                      reset_password_token = "";
                      reset_password_token_issued = none;
                    })
                    owner
                ∙ ap
                    (λ h. record u {
                      login_name = login_name;
                      login_password_hash = h;
                      reset_password_token = "";
                      reset_password_token_issued = none;
                    })
                    hash_eq)

  -- After the token is issued, the user is stored with it, and a login name that was free is free.
  module _ (id : String) (u : User) (w : World S F H) (valid : dir.IsValid w.store)
      (at : dir.users w.store id ≡ some u)
      (issued : (new_reset_login_credentials_token g deps u.email w).0 ≡ ok (next_token w)) where
    abbrev w₁ : World S F H
    w₁ = (new_reset_login_credentials_token g deps u.email w).1

    abbrev stored : Directory
    stored = store (with_token w u) (dir.users w.store)

    issuing : (i : String) → dir.users w₁.store i ≡ stored i
    issuing i =
        let (effect, _) =
          new_reset_login_credentials_token-Effect g deps dir storable marshals u.email w valid in
        let (u₁, (v, at_v, same, _, is_new), now) = effect_of_ok g deps dir _ effect issued in
        now i
        ∙ ap (λ x. store x (dir.users w.store) i)
            (is_new
              ∙ ap (with_token w) (
                  same_user g deps.user_storage dir w.store id u v emails valid at at_v same
                    (λ e. whole id w u valid at (inr (inl e)))))

    stored_now : dir.users w₁.store id ≡ some (with_token w u)
    stored_now = issuing id ∙ ground (arith, eq_iff u.id id, own_id id w u valid at)

    still_free :
        (u' : User)
        → u'.id ≡ u.id
        → IsFreeAt g deps dir storable marshals (dir.users w.store) u' login_names
        → IsFreeAt g deps dir storable marshals (dir.users w₁.store) u' login_names
    still_free u' own free i v at_v same filled = elim (text_cases u.id i) [
      | inl (_, e) ↦ sym e ∙ sym own
      | inr (differs, _) ↦ free i v (rw differs at (sym (issuing i) ∙ at_v)) same filled
    ]

  -- From a valid storage, a stored user who asks for a token and brings it, with a new login, at a time
  -- when it has not expired, has the new login: ResetCredentialsWithToken succeeds and returns the id,
  -- the user has the new login name, the hash of the new password and no token, and what else is stored
  -- of the user and of the others is as before the two calls, if the factory's token is not empty and
  -- no other user has it or the new login name, the login name and the password are not empty, and the
  -- hasher hashes the password.
  pub reset_credentials_with_token-new_reset_login_credentials_token :
      (config : Config) (id login_name password hash : String) (u : User) (w : World S F H)
      (later : Time)
      → dir.IsValid w.store
      → dir.users w.store id ≡ some u
      → next_token w ≢ ""
      → IsFreeAt g deps dir storable marshals
          (dir.users w.store)
          (with_token w u)
          reset_password_tokens
      → login_name ≢ ""
      → password ≢ ""
      → IsFreeAt g deps dir storable marshals
          (dir.users w.store)
          (record u { login_name = login_name })
          login_names
      → after_by later w.clock config.reset_password_expire_time ≡ false
      → (deps.hasher.hash password (new_reset_login_credentials_token g deps u.email w).1.salt).0
        ≡ ok hash
      → ((reset_credentials_with_token g deps config
            (next_token w)
            login_name
            password
            (record (new_reset_login_credentials_token g deps u.email w).1 { clock = later })).0
          ≡ ok id)
        × SameUsers
            (dir.users
              (reset_credentials_with_token g deps config
                (next_token w)
                login_name
                password
                (record (new_reset_login_credentials_token g deps u.email w).1 {
                  clock = later;
                })).1.store)
            (store
              (record u {
                login_name = login_name;
                login_password_hash = hash;
                reset_password_token = "";
                reset_password_token_issued = none;
              })
              (dir.users w.store))
  reset_credentials_with_token-new_reset_login_credentials_token config id login_name password hash
        u w later valid at has_token free filled filled' free_login fresh hashed =
      let issued = new_reset_login_credentials_token-ok id w u valid at free in
      let (_, valid') =
        new_reset_login_credentials_token-Effect g deps dir storable marshals u.email w valid in
      let w' : World S F H = record (w₁ id u w valid at issued) { clock = later } in
      let succeeds : (reset_credentials_with_token g deps config (next_token w) login_name password
            w').0
          ≡ ok id =
        reset_credentials_with_token-ok id w' (with_token w u) valid'
          (stored_now id u w valid at issued) config w.clock login_name password hash has_token refl
          fresh filled filled' hashed
          (still_free id u w valid at issued (record u { login_name = login_name }) refl
            free_login) in
      (
        succeeds,
        λ i.
            reset_users id w' (with_token w u) valid' (stored_now id u w valid at issued) config
              w.clock login_name password hash has_token hashed succeeds i
            ∙ ap
                (λ o.
                  if u.id == i
                  then some (record u {
                    login_name = login_name;
                    login_password_hash = hash;
                    reset_password_token = "";
                    reset_password_token_issued = none;
                  })
                  else o)
                (issuing id u w valid at issued i)
            ∙ store-store _ (with_token w u) (dir.users w.store) i refl,
      )
