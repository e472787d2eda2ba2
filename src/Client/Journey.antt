-- ===== src/Client/Journey.antt =====
-- ApiCreateUser and then ApiGetUser of client/api.go, against the handlers of middlewares/v1/web.go.
use Prim.Native.String.{◌++◌}
use text.Mathlib.TextLemmas.{append-nil}
use userd.Common.{ℕ, String, ◌≡◌, ◌↔◌, refl, ap, ◌∙◌, false, List, [], ◌∷◌, some, inl, inr}
use userd.Errors.{Error, ErrGo}
use userd.User.{User, Time}
use userd.Exec.{Outcome, ok, err, Exec, ◌>>◌}
use userd.Storage.Directory.{IsDirectory}
use userd.Service.Backends.{Config, Dependencies, World, Entry}
use userd.Service.Users.{create_user, new_user}
use userd.Service.Methods.{create_user-Effect}
use userd.Service.Collector.{EventCollector}
use userd.Api.Writer
use userd.Api.Writer.{Object, add_header, write_header, write, call}
use userd.Api.Errors.{handle_processing_error, mask_error}
use userd.Api.Answers.{statuses, IsErrorStatus, handle_processing_error-IsErrorPage}
use userd.Api.Handlers.{Serving, user_object, answer, serve_create_user}
use userd.Api.Routes.{Route, routes, serve}
use userd.Api.Journey.{get_stored, created_user}
use userd.Client.{Values}
use userd.Client.Network.{served, written, IsServed}
use userd.Client.Replies.{reply, Replied, answered, refused, panicked, reply-Replied}
use userd.Client.Calls.{
  Api, endpoint, post_form_and_expect, api_create_user, expect, get_and_expect, api_get_user,
}

module _ (g : ErrGo) {S F H : Type 0} (deps : Dependencies S F H) (encode : Object → Outcome String)
    (encodes : (o : Object) → (line : String) × (encode o ≡ ok line))
    (marshal_item : (tag : String) → Time → (message : String) → Outcome String)
    (encode_item : Outcome String → Exec (List Writer.Call) (Unit {0})) (config : Config)
    (esc : EventCollector) (api : Api (World S F H))
    (is_served : IsServed g deps encode encodes marshal_item encode_item config esc api) where
  -- What a creation writes where it succeeds, and where it fails.
  abbrev creation_page : String → Exec (List Writer.Call) (Unit {0})
  creation_page id = do
    call (add_header "location" ("/v1/user/get?id=" ++ id))
    call (write_header 201)
    call (write id)

  abbrev masked : Error → Exec (List Writer.Call) (Unit {0})
  masked e = handle_processing_error g encode (mask_error g e)

  module _ (profile_name email login_name password : String) (w : World S F H) where
    abbrev form : Values
    form =
        ("profile_name", profile_name)
        ∷ ("email", email)
        ∷ ("login_name", login_name)
        ∷ ("login_password", password)
        ∷ []

    abbrev m : Exec (World S F H) String
    m = create_user g deps profile_name email login_name password

    abbrev sent : Outcome String × World S F H
    sent = api_create_user g api profile_name email login_name password w

    abbrev replied : Outcome (Unit {0}) × Serving S F H
    replied =
        served g deps encode encodes marshal_item encode_item config esc api Route.create_user
          (is_served.request_of form) w

    serves : replied ≡ reply encode encodes m creation_page masked w
    unfolding serve serve_create_user answer
    serves =
        rw
          (
            is_served.post_form_value "profile_name" form,
            is_served.post_form_value "email" form,
            is_served.post_form_value "login_name" form,
            is_served.post_form_value "login_password" form,
          )
          refl

    abbrev Meets : Type 0
    Meets = ((id : String) → (sent.0 ≡ ok id) ↔ ((m w).0 ≡ ok id)) × (sent.1 ≡ (m w).1)

    responds :
        (code : ℕ)
        → replied.0 ≡ ok tt
        → statuses replied.1.calls ≡ code ∷ []
        → api.http.post_form (api.endpoint ++ "create") form w ≡ (
          ok (record { status_code = code; read_all = ok (written replied.1.calls) }),
          replied.1.world,
        )
    unfolding routes
    responds code done one = is_served.answered "create" Route.create_user form w code refl done one

    fails :
        (x : Error) (code : ℕ)
        → (m w).0 ≡ err x
        → IsErrorStatus code
        → replied.0 ≡ ok tt
        → statuses replied.1.calls ≡ code ∷ []
        → replied.1.world ≡ (m w).1
        → Meets
    unfolding api_create_user post_form_and_expect endpoint
    fails x code e (inl is) done one left =
        rw (responds code done one, is, e) ((λ id. ((λ h. cc), (λ h. cc))), left)
    fails x code e (inr (inl is)) done one left =
        rw (responds code done one, is, e) ((λ id. ((λ h. cc), (λ h. cc))), left)
    fails x code e (inr (inr is)) done one left =
        rw (responds code done one, is, e) ((λ id. ((λ h. cc), (λ h. cc))), left)

    create_user-Meets : Meets
    unfolding api_create_user post_form_and_expect endpoint call routes
    create_user-Meets = go (
        reply-Replied encode encodes m creation_page masked w
          (λ e. handle_processing_error-IsErrorPage encode encodes g (mask_error g e)))
      where
        go :
            Replied encode encodes m creation_page masked w
              (reply encode encodes m creation_page masked w)
            → Meets
        go (answered id e at) =
            let at' = serves ∙ at in
            rw
              (
                responds 201 (ap (λ r. r.0) at') (ap (λ r. statuses r.1.calls) at'),
                at',
                append-nil id,
                e,
              )
              ((λ id'. ((λ h. h), (λ h. h))), refl)
        go (refused x code e is_error done one left) =
            fails x code e is_error (ap (λ r. r.0) serves ∙ done)
              (ap (λ r. statuses r.1.calls) serves ∙ one) (ap (λ r. r.1.world) serves ∙ left)
        go (panicked e stopped left) =
            let (x, dropped) =
              is_served.dropped "create" Route.create_user form w refl
                (ap (λ r. r.0) serves ∙ stopped) in
            rw (dropped, e) ((λ id. ((λ h. cc), (λ h. cc))), ap (λ r. r.1.world) serves ∙ left)

  -- The answer to a query for a stored user.
  module _ (dir : IsDirectory g deps.user_storage) (storable : (u : User) → dir.IsStorable u)
      (marshals : (e : Entry) → (bytes : String) × (deps.marshal_entry e ≡ ok bytes))
      (decodes : (u : User) (line : String)
        → encode (user_object u) ≡ ok line
        → api.decode_user line
          ≡ ok (record {
            profile_name = u.profile_name;
            login_name = u.login_name;
            email = u.email;
            email_verified = u.email_verified;
          })) where
    api_get_user_lem :
        (w : World S F H) (u : User) (id : String)
        → dir.IsValid w.store
        → dir.users w.store id ≡ some u
        → (api_get_user g api id w).0
          ≡ ok (record {
            profile_name = u.profile_name;
            login_name = u.login_name;
            email = u.email;
            email_verified = u.email_verified;
          })
    unfolding api_get_user get_and_expect expect endpoint serve
    api_get_user_lem w u id valid at =
        let reply =
          get_stored g deps dir storable marshals encode encodes w u id
            (is_served.query_request (("id", id) ∷ [])) valid at
            (is_served.query_value "id" (("id", id) ∷ [])) in
        let (line, encoded) = encodes (user_object u) in
        rw
          (
            is_served.got id w 200 (ap (λ r. r.0) reply) (ap (λ r. statuses r.1.calls) reply),
            reply,
            append-nil line,
          )
          (decodes u line encoded)

    -- A client whose requests reach the server, over a valid storage, where encoding/json decodes what
    -- it encoded: if ApiCreateUser returns an id, then ApiGetUser for that id returns the profile name,
    -- the login name and the email that were given, with an email that is not verified.
    pub api_get_user-api_create_user :
        (profile_name email login_name password id : String) (w : World S F H)
        → dir.IsValid w.store
        → (api_create_user g api profile_name email login_name password w).0 ≡ ok id
        → (api_get_user g api id
            (api_create_user g api profile_name email login_name password w).1).0
          ≡ ok (record {
            profile_name = profile_name;
            login_name = login_name;
            email = email;
            email_verified = false;
          })
    api_get_user-api_create_user profile_name email login_name password id w valid returned =
        let (meets, left) = create_user-Meets profile_name email login_name password w in
        let (hash, at) =
          created_user g deps dir storable marshals encode encodes profile_name email login_name
            password id w valid ((meets id).0 returned) in
        let valid' =
          (create_user-Effect g deps dir storable marshals profile_name email login_name password w
            valid).1 in
        rw left (
          api_get_user_lem (create_user g deps profile_name email login_name password w).1
            (new_user g deps id profile_name email login_name hash) id valid' at)
