-- ===== src/Service/Methods.antt =====
-- What each method of Service/Users does to the users and to the events.
use userd.Common.{String, false, none, ◌≡◌, refl, [], ◌∷◌, ◌||◌, ◌==◌}
use userd.Errors.{ErrGo}
use userd.User.{User}
use userd.Exec.{Outcome, ok, IsFailure, bind_rule, if_rule}
use userd.Storage.Directory.{IsDirectory}
use userd.Service.Backends.{Dependencies, World, Entry, text, on_salt, on_ids}
use userd.Service.Users.{new_user, create_user}
use userd.Service.Effects.{Effect, failed, save_then_log, log_event_lem}

module _ (g : ErrGo) {S F H : Type 0} (deps : Dependencies S F H)
    (dir : IsDirectory g deps.user_storage) (storable : (u : User) → dir.IsStorable u)
    (marshals : (e : Entry) → (bytes : String) × (deps.marshal_entry e ≡ ok bytes)) where
  -- An effect that leaves the storage valid.
  abbrev pub Does :
      {A : Type 0}
      → (A → User → Type 0)
      → String
      → (User → Entry)
      → World S F H
      → Outcome A × World S F H
      → Type 0
  Does Done tag entry w r = Effect g deps dir Done tag entry w r × dir.IsValid r.1.store

  -- A failure before anything is written.
  pub stops :
      {A : Type 0} {Done : A → User → Type 0} {tag : String} {entry : User → Entry}
      (w : World S F H) (r : Outcome A)
      → dir.IsValid w.store
      → IsFailure r
      → Does Done tag entry w (r, w)
  stops w r v f = (failed f (λ i. refl) refl, v)

  -- The user that CreateUser makes: a new id, the password's hash, an email that is not verified.
  abbrev pub Created :
      (profile_name email login_name password : String) → World S F H → String → User → Type 0
  Created profile_name email login_name password w id u =
      (id ≡ (deps.id_factory.new_user_id w.ids).0)
      × (hash : String) × ((deps.hasher.hash password w.salt).0 ≡ ok hash)
      × (u ≡ record {
        id = id;
        profile_name = profile_name;
        login_name = login_name;
        login_password_hash = hash;
        email = email;
        email_verified = false;
        reset_password_token = "";
        reset_password_token_issued = none;
      })

  abbrev pub created_entry : User → Entry
  created_entry u =
      ("user_id", text u.id) ∷ ("profile_name", text u.profile_name) ∷ ("email", text u.email) ∷ []

  -- From a valid storage, CreateUser either stores one new user, with the next id of the factory, the
  -- names and the email that it was given, the hash of the password, an email that is not verified and
  -- no reset token, whose email and login name no user with another id has, and logs user.created; or fails, and changes no user and logs nothing. The
  -- storage stays valid.
  pub create_user-Effect :
      (profile_name email login_name password : String) (w : World S F H)
      → dir.IsValid w.store
      → Does
          (Created profile_name email login_name password w)
          "user.created"
          created_entry
          w
          (create_user g deps profile_name email login_name password w)
  unfolding create_user on_salt on_ids
  create_user-Effect profile_name email login_name password w v =
      if_rule Q (profile_name == "" || email == "" || login_name == "" || password == "") _ _ w
        (λ _. stops w _ v tt)
        (λ _.
          bind_rule Q (on_salt (deps.hasher.hash password)) w _
            (λ hash e.
              save_then_log g deps dir storable marshals
                (Created profile_name email login_name password w) "user.created" created_entry id _
                (new_user g deps id profile_name email login_name hash)
                (λ bytes w' h. rw (log_event_lem g deps dir "user.created" _ bytes w' h)) _ w v
                (λ i. refl) refl (refl, hash, e, refl))
            (λ r f ne. stops' f))
    where
      Q : Outcome String × World S F H → Type 0
      Q r = Does (Created profile_name email login_name password w) "user.created" created_entry w r

      id : String
      id = (deps.id_factory.new_user_id w.ids).0

      stops' :
          {r : Outcome String}
          → IsFailure r
          → Q (r, record w { salt = (deps.hasher.hash password w.salt).1 })
      stops' f = (failed f (λ i. refl) refl, v)
