-- ===== src/Api/Journey.antt =====
-- What a client sees who creates a user and then asks for it.
use Prim.Native.String.{◌++◌}
use userd.Common.{
  String, ◌≡◌, ◌≢◌, refl, ap, ◌∙◌, inl, List, [], ◌∷◌, ◌==◌, eq_iff, arith, some, false,
}
use userd.Errors.{ErrGo}
use userd.User.{User}
use userd.Exec.{Outcome, ok, Exec, attempt_rule}
use userd.Storage.Directory.{Directory, store, IsDirectory, found}
use userd.Service.Backends.{Dependencies, World, Entry, on_store}
use userd.Service.Users.{new_user, create_user, get_user}
use userd.Service.Effects.{effect_of_ok}
use userd.Service.Methods.{create_user-Effect}
use userd.Api.Writer.{Call, add_header, write_header, write, text, flag, Object, call}
use userd.Api.Errors.{handle_processing_error, mask_error}
use userd.Api.Answers.{
  json_page, IsErrorPage, write_json_response_lem, handle_processing_error-IsErrorPage,
}
use userd.Api.Atomic.{arriving}
use userd.Api.Handlers.{
  Request, Serving, user_id, user_object, serve_create_user, serve_get_user, answer, on_service,
  on_writer,
}

-- The calls of a creation that succeeds.
abbrev pub created_page : String → List Call
created_page id =
    add_header "location" ("/v1/user/get?id=" ++ id) ∷ write_header 201 ∷ write id ∷ []

module _ (g : ErrGo) {S F H : Type 0} (deps : Dependencies S F H)
    (dir : IsDirectory g deps.user_storage) (storable : (u : User) → dir.IsStorable u)
    (marshals : (e : Entry) → (bytes : String) × (deps.marshal_entry e ≡ ok bytes))
    (encode : Object → Outcome String)
    (encodes : (o : Object) → (line : String) × (encode o ≡ ok line)) where
  -- The service's method behind a creation.
  abbrev creating : Request → Exec (World S F H) String
  creating req =
      create_user g deps (req.post_form_value "profile_name") (req.post_form_value "email")
        (req.post_form_value "login_name") (req.post_form_value "login_password")

  same_id : (a id : String) → created_page a ≡ created_page id → a ≡ id
  same_id a id e = cc

  no_error_page :
      (id : String) (r : Outcome (Unit {0}) × List Call)
      → IsErrorPage encode encodes r
      → r.1 ≢ created_page id
  no_error_page id r (_, _, _, e) page = let p = ap (λ r. r.1) e in cc

  Made : Request → World S F H → String → Outcome (Unit {0}) × Serving S F H → Type 0
  Made req w id r =
      r.1.calls ≡ created_page id → (r.1.world ≡ (creating req w).1) × ((creating req w).0 ≡ ok id)

  made :
      (req : Request) (w : World S F H) (id : String)
      → Made req w id (serve_create_user g deps encode req (arriving g deps dir w))
  unfolding serve_create_user answer on_service on_writer call Made
  made req w id =
      attempt_rule (Made req w id) (on_service (creating req)) (arriving g deps dir w) _ _
        (λ a e page. (refl, e ∙ ap ok (same_id a id page)))
        (λ e at page. absurd (
          no_error_page id (handle_processing_error g encode (mask_error g e) [])
            (handle_processing_error-IsErrorPage encode encodes g (mask_error g e)) page))
        (λ at page. absurd (cc))

  -- A request with the id of a stored user is answered by the user.
  pub get_stored :
      (w : World S F H) (u : User) (id : String) (req : Request)
      → dir.IsValid w.store
      → dir.users w.store id ≡ some u
      → req.form_value "id" ≡ id
      → serve_get_user g deps encode req (arriving g deps dir w) ≡ (
        ok tt,
        record {
          world = (get_user g deps id w).1;
          calls = json_page encode encodes 200 (user_object u);
        },
      )
  unfolding serve_get_user user_id answer on_service on_writer get_user on_store
  get_stored w u id req valid at asked =
      let (own, complete) = dir.well_formed w.store valid id u at in
      let filled : id ≢ "" = λ e. complete (inl (own ∙ e)) in
      let differs : (id == "") ≡ false = ground (arith, eq_iff id "") in
      let got : (deps.user_storage.get id w.store).0 ≡ ok u =
        dir.get-outcome w.store valid id filled ∙ ap found at in
      rw (asked, differs, got)
        (ap
          (λ (r : Outcome (Unit {0}) × List Call).
            (r.0, record { world = (get_user g deps id w).1; calls = r.1 }))
          (write_json_response_lem encode encodes 200 _))

  stored : (x : User) (d : Directory) (id : String) → x.id ≡ id → store x d id ≡ some x
  stored x d id e = ground (arith, eq_iff x.id id)

  -- The user that a creation stores.
  pub created_user :
      (profile_name email login_name password id : String) (w : World S F H)
      → dir.IsValid w.store
      → (create_user g deps profile_name email login_name password w).0 ≡ ok id
      → (hash : String) × (dir.users
            (create_user g deps profile_name email login_name password w).1.store
            id
          ≡ some (new_user g deps id profile_name email login_name hash))
  created_user profile_name email login_name password id w valid created =
      let effect =
        (create_user-Effect g deps dir storable marshals profile_name email login_name password w
          valid).0 in
      let (u, (_, hash, _, is_new), now) = effect_of_ok g deps dir id effect created in
      let own : u.id ≡ id = ap (λ (x : User). x.id) is_new in
      (hash, now id ∙ stored u (dir.users w.store) id own ∙ ap some is_new)

  -- From a valid storage: where a creation is answered by 201 and an id, a request for that id is
  -- answered by 200 and the profile name, email and login name that were given, with an email that is
  -- not verified.
  pub serve_get_user-serve_create_user :
      (req get_req : Request) (w : World S F H) (id : String)
      → dir.IsValid w.store
      → (serve_create_user g deps encode req (arriving g deps dir w)).1.calls ≡ created_page id
      → get_req.form_value "id" ≡ id
      → (serve_get_user g deps encode get_req (
          arriving g deps dir
            (serve_create_user g deps encode req (arriving g deps dir w)).1.world)).1.calls
        ≡ json_page encode encodes 200 (
            ("profile_name", text (req.post_form_value "profile_name"))
            ∷ ("email", text (req.post_form_value "email"))
            ∷ ("login_name", text (req.post_form_value "login_name"))
            ∷ ("email_verified", flag false)
            ∷ [])
  unfolding user_object Made
  serve_get_user-serve_create_user req get_req w id valid page asked =
      let (world, created) = made req w id page in
      let (hash, at) = created_user _ _ _ _ id w valid created in
      let valid' = (create_user-Effect g deps dir storable marshals _ _ _ _ w valid).1 in
      rw world (ap (λ r. r.1.calls) (get_stored (creating req w).1 _ id get_req valid' at asked))
