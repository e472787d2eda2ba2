-- ===== src/Service/Success/Changes.antt =====
-- When the methods of service/service.go that change a stored user succeed.
use userd.Common.{
  String, ◌≡◌, ◌≢◌, refl, sym, ap, ◌∙◌, ◌==◌, false, true, inl, inr, some, eq_iff, Bool-cases,
  if◌then◌else◌,
}
use userd.Errors.{Error, ErrGo, mask_service, known, invalid_verification_email}
use userd.User.{User}
use userd.Exec.{ok, err, Exec}
use userd.Storage.Interface.{Field, login_names, emails, reset_password_tokens, value}
use userd.Storage.Directory.{IsDirectory, IsFree, IsIncomplete, found}
use userd.Service.Backends.{Dependencies, World, Entry, on_store, on_salt}
use userd.Service.Users
use userd.Service.Users.{
  new_user, log_event, read_modify_write, create_user, change_login_credentials,
  change_profile_name, change_email, set_email_verified, check_and_set_email_verified, log_verified,
}
use userd.Service.Success.{filled_test, save-ok, logs, own-IsFreeAt, by_field, IsFreeAt}

-- The changes of a stored user; a login comes with the hash that the hasher makes of its password.
pub data Change : Type 0 where
  rename : (profile_name : String) → Change
  readdress confirm : (email : String) → Change
  renew_login : (login_name password hash : String) → Change
  verify : Change

module _ (g : ErrGo) {S F H : Type 0} (deps : Dependencies S F H)
    (dir : IsDirectory g deps.user_storage) (storable : (u : User) → dir.IsStorable u)
    (marshals : (e : Entry) → (bytes : String) × (deps.marshal_entry e ≡ ok bytes)) where
  -- readModifyWrite at a stored user u that the modifier changes to u'.
  module _ (user_id : String) (modifier : User → Users.Action g deps User) (tag : String)
      (entry : User → Entry) (w : World S F H) (u u' : User) where
    abbrev reading : World S F H
    reading = record w { store = (deps.user_storage.get user_id w.store).1 }

    read_modify_write-err :
        {e : Error}
        → dir.IsValid w.store
        → dir.users w.store user_id ≡ some u
        → (modifier u reading).0 ≡ err e
        → (read_modify_write g deps user_id modifier (λ v. log_event g deps tag (entry v)) w).0
          ≡ err (mask_service g e)
    unfolding read_modify_write on_store
    read_modify_write-err valid at fails =
        let (own, whole) = dir.well_formed w.store valid user_id u at in
        let got : (deps.user_storage.get user_id w.store).0 ≡ ok u =
          dir.get-outcome w.store valid user_id (λ e. whole (inl (own ∙ e))) ∙ ap found at in
        rw (got, fails) refl

    read_modify_write-ok :
        dir.IsValid w.store
        → dir.users w.store user_id ≡ some u
        → (modifier u reading).0 ≡ ok u'
        → (modifier u reading).1.store ≡ reading.store
        → ¬ IsIncomplete u'
        → IsFree (dir.users w.store) u'
        → (read_modify_write g deps user_id modifier (λ v. log_event g deps tag (entry v)) w).0
          ≡ ok tt
    unfolding read_modify_write on_store
    read_modify_write-ok valid at changes kept complete free =
        let (own, whole) = dir.well_formed w.store valid user_id u at in
        let got : (deps.user_storage.get user_id w.store).0 ≡ ok u =
          dir.get-outcome w.store valid user_id (λ e. whole (inl (own ∙ e))) ∙ ap found at in
        let saved : (deps.user_storage.save u' reading.store).0 ≡ ok tt =
          save-ok g deps dir storable marshals reading.store u'
            (dir.get-IsValid w.store valid user_id) complete
            (λ f id v stored.
              free f id v (sym (dir.get-users w.store valid user_id id) ∙ stored)) in
        rw (got, changes, kept, saved) (logs g deps dir storable marshals tag (entry u') _)

  module _ (user_id : String) (w : World S F H) (u : User) (valid : dir.IsValid w.store)
      (at : dir.users w.store user_id ≡ some u) where
    own_id : u.id ≡ user_id
    own_id = (dir.well_formed w.store valid user_id u at).0

    whole : ¬ IsIncomplete u
    whole = (dir.well_formed w.store valid user_id u at).1

    filled_id : (user_id == "") ≡ false
    filled_id = filled_test (λ e. whole (inl (own_id ∙ e)))

    own_values :
        (u' : User) (f : Field)
        → u'.id ≡ user_id
        → value f u ≡ value f u'
        → IsFreeAt g deps dir storable marshals (dir.users w.store) u' f
    own_values u' f = own-IsFreeAt g deps dir storable marshals w.store user_id u u' f valid at

    -- From a valid storage, ChangeProfileName of a stored user to a name that is not empty succeeds.
    change_profile_name-ok :
        (profile_name : String)
        → profile_name ≢ ""
        → (change_profile_name g deps user_id profile_name w).0 ≡ ok tt
    unfolding change_profile_name
    change_profile_name-ok profile_name filled =
        let u' : User = record u { profile_name = profile_name } in
        rw (filled_id, filled_test filled)
          (read_modify_write-ok user_id _ _ _ w u u' valid at refl refl whole (
            by_field g deps dir storable marshals (dir.users w.store) u'
              (own_values u' login_names own_id refl) (own_values u' emails own_id refl)
              (own_values u' reset_password_tokens own_id refl)))

    -- From a valid storage, ChangeEmail of a stored user succeeds for an email that is not empty and
    -- that no other user has.
    change_email-ok :
        (email : String)
        → email ≢ ""
        → IsFreeAt g deps dir storable marshals
            (dir.users w.store)
            (record u { email = email })
            emails
        → (change_email g deps user_id email w).0 ≡ ok tt
    unfolding change_email
    change_email-ok email filled free =
        let u' : User = record u { email = email } in
        rw (filled_id, filled_test filled)
          (read_modify_write-ok user_id _ _ _ w u u' valid at refl refl
            (elim [
              | inl e ↦ whole (inl e)
              | inr (inl e) ↦ filled e
              | inr (inr e) ↦ whole (inr (inr e))
            ])
            (by_field g deps dir storable marshals (dir.users w.store) u'
              (own_values u' login_names own_id refl) free
              (own_values u' reset_password_tokens own_id refl)))

    -- From a valid storage, ChangeLoginCredentials of a stored user succeeds for a login name and a
    -- password that are not empty, if no other user has the login name and the hasher does not panic.
    change_login_credentials-ok :
        (login_name password hash : String)
        → login_name ≢ ""
        → password ≢ ""
        → (deps.hasher.hash password w.salt).0 ≡ ok hash
        → IsFreeAt g deps dir storable marshals
            (dir.users w.store)
            (record u { login_name = login_name })
            login_names
        → (change_login_credentials g deps user_id login_name password w).0 ≡ ok tt
    unfolding change_login_credentials on_salt
    change_login_credentials-ok login_name password hash filled filled' hashed free =
        let u' : User = record u { login_name = login_name; login_password_hash = hash } in
        rw (filled_id, filled_test filled, filled_test filled')
          (read_modify_write-ok user_id _ _ _ w u u' valid at (rw hashed) (rw hashed)
            (elim [
              | inl e ↦ whole (inl e)
              | inr (inl e) ↦ whole (inr (inl e))
              | inr (inr e) ↦ filled e
            ])
            (by_field g deps dir storable marshals (dir.users w.store) u' free
              (own_values u' emails own_id refl) (own_values u' reset_password_tokens own_id refl)))

    abbrev verified : User
    verified = record u { email_verified = true }

    -- From a valid storage and at a stored user, SetEmailVerified succeeds, and
    -- CheckAndSetEmailVerified, for an email that is not empty, succeeds exactly when it is the user's
    -- and else fails with InvalidVerificationEmail, masked.
    check_and_set_email_verified-outcome :
        (email : String)
        → email ≢ ""
        → ((set_email_verified g deps user_id w).0 ≡ ok tt)
          × ((check_and_set_email_verified g deps user_id email w).0 ≡ (
              if u.email == email
              then ok tt
              else err (mask_service g (known invalid_verification_email))))
    unfolding set_email_verified check_and_set_email_verified log_verified
    check_and_set_email_verified-outcome email filled = (
      rw filled_id (read_modify_write-ok user_id _ _ _ w u verified valid at refl refl whole free),
      elim (Bool-cases (u.email == email)) [
        | inl same ↦
            rw (filled_id, filled_test filled, same)
              (read_modify_write-ok user_id _ _ _ w u verified valid at (rw same) (rw same) whole
                free)
        | inr other ↦
            rw (filled_id, filled_test filled, other)
              (read_modify_write-err user_id _ _ _ w u u valid at (rw other))
      ],
    )
      where
        verified : User
        verified = record u { email_verified = true }

        free : IsFree (dir.users w.store) verified
        free =
            by_field g deps dir storable marshals (dir.users w.store) verified
              (own_values verified login_names own_id refl) (own_values verified emails own_id refl)
              (own_values verified reset_password_tokens own_id refl)

    -- The method of each change, at the stored user.
    abbrev pub method : Change → Exec (World S F H) (Unit {0})
    method (rename profile_name) = change_profile_name g deps user_id profile_name
    method (readdress email) = change_email g deps user_id email
    method (renew_login login_name password hash) =
        change_login_credentials g deps user_id login_name password
    method verify = set_email_verified g deps user_id
    method (confirm email) = check_and_set_email_verified g deps user_id email

    -- What each asks for: values that are not empty, that no other user has, or that are the user's.
    abbrev pub IsAllowed : Change → Type 0
    IsAllowed (rename profile_name) = profile_name ≢ ""
    IsAllowed (readdress email) =
        (email ≢ "")
        × IsFreeAt g deps dir storable marshals (dir.users w.store) (record u { email = email })
            emails
    IsAllowed (renew_login login_name password hash) =
        (login_name ≢ "")
        × (password ≢ "")
        × ((deps.hasher.hash password w.salt).0 ≡ ok hash)
        × IsFreeAt g deps dir storable marshals (dir.users w.store)
            (record u { login_name = login_name }) login_names
    IsAllowed verify = Unit {0}
    IsAllowed (confirm email) = (email ≢ "") × (u.email ≡ email)

    -- From a valid storage and at a stored user: ChangeProfileName, ChangeEmail, ChangeLoginCredentials,
    -- SetEmailVerified and CheckAndSetEmailVerified succeed, if no new value is empty, no other user has
    -- the new email or login name, the hasher does not panic, and the email to verify is the user's.
    pub method-ok : (c : Change) → IsAllowed c → (method c w).0 ≡ ok tt
    method-ok (rename profile_name) filled = change_profile_name-ok profile_name filled
    method-ok (readdress email) (filled, free) = change_email-ok email filled free
    method-ok (renew_login login_name password hash) (filled, filled', hashed, free) =
        change_login_credentials-ok login_name password hash filled filled' hashed free
    method-ok verify allowed =
        (check_and_set_email_verified-outcome u.email (λ e. whole (inr (inl e)))).0
    method-ok (confirm email) (filled, own) =
        let same : (u.email == email) ≡ true = (eq_iff u.email email).1 own in
        rw same at (check_and_set_email_verified-outcome email filled).1
