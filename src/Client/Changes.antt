-- ===== src/Client/Changes.antt =====
-- The calls of client/api.go that change a user, against the handlers of middlewares/v1/web.go.
use Prim.Native.String.{◌++◌}
use userd.Common.{
  ℕ, String, ◌≡◌, ◌≢◌, ◌↔◌, refl, ap, ◌∙◌, false, List, [], ◌∷◌, some, none, inl, inr,
}
use userd.Errors.{Error, ErrGo}
use userd.User.{Time}
use userd.Exec.{Outcome, ok, err, panic, Exec}
use userd.Service.Backends.{Config, Dependencies, World}
use userd.Service.Users
use userd.Service.Login.{reset_credentials_with_token}
use userd.Service.Collector.{EventCollector}
use userd.Service.Success.{filled_test}
use userd.Api.Writer
use userd.Api.Writer.{Object, write_header, call, write_no_content}
use userd.Api.Errors.{handle_processing_error, mask_error}
use userd.Api.Answers.{statuses, IsErrorStatus, IsErrorPage, handle_processing_error-IsErrorPage}
use userd.Api.Handlers
use userd.Api.Handlers.{
  Request, Serving, user_id, answer, answer_unmasked, serve_change_login_credentials,
  serve_change_profile_name, serve_change_email, serve_verify_email, serve_reset_credentials_token,
}
use userd.Api.Routes.{route_at, Route, routes, serve}
use userd.Client.{
  Values, Call, plain_call, handler_of, send, handle_response, with_query, request_error, execute,
}
use userd.Client.Network.{served, written, IsServed}
use userd.Client.Replies.{reply, Replied, answered, refused, panicked, reply-Replied}
use userd.Client.Calls.{
  Api, endpoint, no_result, change, verify_email_call, change_profile_name_call, change_email_call,
  change_login_credentials_call, reset_login_credentials_call, api_verify_email,
  api_change_profile_name, api_change_email, api_change_login_credentials,
  api_reset_login_credentials,
}

-- The calls, with their arguments.
pub data ChangeCall : Type 0 where
  verify_email : (user_id : String) → ChangeCall
  change_profile_name change_email : (user_id value : String) → ChangeCall
  change_login_credentials : (user_id name password : String) → ChangeCall
  reset_login_credentials : (token login_name login_password : String) → ChangeCall

module _ (g : ErrGo) {S F H : Type 0} (deps : Dependencies S F H) (encode : Object → Outcome String)
    (encodes : (o : Object) → (line : String) × (encode o ≡ ok line))
    (marshal_item : (tag : String) → Time → (message : String) → Outcome String)
    (encode_item : Outcome String → Exec (List Writer.Call) (Unit {0})) (config : Config)
    (esc : EventCollector) (api : Api (World S F H))
    (is_served : IsServed g deps encode encodes marshal_item encode_item config esc api) where
  abbrev serving : Route → Values → World S F H → Outcome (Unit {0}) × Serving S F H
  serving route form w =
      served g deps encode encodes marshal_item encode_item config esc api route
        (is_served.request_of form) w

  -- A call that wants 204, and a handler that answers 204 where its method succeeds.
  module _ {A : Type 0} (m : Exec (World S F H) A)
      (report : Error → Exec (List Writer.Call) (Unit {0}))
      (page : (e : Error) → IsErrorPage encode encodes (report e [])) (action : String)
      (route : Route) (form : Values) (w : World S F H)
      (found : route_at "POST" ("/v1/user/" ++ action) routes ≡ some route)
      (serves : serving route form w
        ≡ reply encode encodes m (λ _. call (write_header 204)) report w) where
    abbrev changing : Call
    changing = record plain_call { post_form = some form; response_no_content = some no_result }

    abbrev Meets : Type 0
    Meets =
        (((change g api action changing w).0 ≡ ok tt) ↔ ((a : A) × ((m w).0 ≡ ok a)))
        × ((change g api action changing w).1 ≡ (m w).1)

    responds :
        (code : ℕ)
        → (serving route form w).0 ≡ ok tt
        → statuses (serving route form w).1.calls ≡ code ∷ []
        → api.http.post_form (api.endpoint ++ action) form w ≡ (
          ok (record {
            status_code = code;
            read_all = ok (written (serving route form w).1.calls);
          }),
          (serving route form w).1.world,
        )
    responds code done one = is_served.answered action route form w code found done one

    -- An error status.
    fails :
        (x : Error) (code : ℕ)
        → (m w).0 ≡ err x
        → IsErrorStatus code
        → (serving route form w).0 ≡ ok tt
        → statuses (serving route form w).1.calls ≡ code ∷ []
        → (serving route form w).1.world ≡ (m w).1
        → Meets
    unfolding change execute send with_query request_error handle_response handler_of endpoint
    fails x code e (inl is) done one left =
        rw (responds code done one, is, e) (((λ h. cc), (λ (a, h). cc)), left)
    fails x code e (inr (inl is)) done one left =
        rw (responds code done one, is, e) (((λ h. cc), (λ (a, h). cc)), left)
    fails x code e (inr (inr is)) done one left =
        rw (responds code done one, is, e) (((λ h. cc), (λ (a, h). cc)), left)

    -- A handler that panics.
    drops :
        (m w).0 ≡ panic
        → (serving route form w).0 ≡ panic
        → (serving route form w).1.world ≡ (m w).1
        → Meets
    unfolding change execute send with_query request_error handle_response handler_of endpoint
    drops e stopped left =
        let (x, dropped) = is_served.dropped action route form w found stopped in
        rw (dropped, e) (((λ h. cc), (λ (a, h). cc)), left)

    change-Meets : Meets
    unfolding change execute send with_query request_error handle_response handler_of endpoint call
    change-Meets = go (reply-Replied encode encodes m (λ _. call (write_header 204)) report w page)
      where
        go :
            Replied encode encodes m
              (λ _. call (write_header 204))
              report
              w
              (reply encode encodes m (λ _. call (write_header 204)) report w)
            → Meets
        go (answered a e at) =
            let at' = serves ∙ at in
            rw (responds 204 (ap (λ r. r.0) at') (ap (λ r. statuses r.1.calls) at'), at')
              (((λ _. (a, e)), (λ _. refl)), refl)
        go (refused x code e is_error done one left) =
            fails x code e is_error (ap (λ r. r.0) serves ∙ done)
              (ap (λ r. statuses r.1.calls) serves ∙ one) (ap (λ r. r.1.world) serves ∙ left)
        go (panicked e stopped left) =
            drops e (ap (λ r. r.0) serves ∙ stopped) (ap (λ r. r.1.world) serves ∙ left)

  -- The method of the service that each call is for, and what the client does.
  abbrev pub ResultOf : ChangeCall → Type 0
  ResultOf (reset_login_credentials _ _ _) = String
  ResultOf _ = Unit {0}

  abbrev pub method : (c : ChangeCall) → Exec (World S F H) (ResultOf c)
  method (verify_email user_id) = Users.set_email_verified g deps user_id
  method (change_profile_name user_id name) = Users.change_profile_name g deps user_id name
  method (change_email user_id email) = Users.change_email g deps user_id email
  method (change_login_credentials user_id name password) =
      Users.change_login_credentials g deps user_id name password
  method (reset_login_credentials token login_name login_password) =
      reset_credentials_with_token g deps config token login_name login_password

  abbrev pub sent : ChangeCall → Exec (World S F H) (Unit {0})
  sent (verify_email user_id) = api_verify_email g api user_id
  sent (change_profile_name user_id name) = api_change_profile_name g api user_id name
  sent (change_email user_id email) = api_change_email g api user_id email
  sent (change_login_credentials user_id name password) =
      api_change_login_credentials g api user_id name password
  sent (reset_login_credentials token login_name login_password) =
      api_reset_login_credentials g api token login_name login_password

  -- No argument is empty, where the handler tests it.
  abbrev pub IsFilled : ChangeCall → Type 0
  IsFilled (verify_email user_id) = user_id ≢ ""
  IsFilled (change_profile_name user_id name) = (user_id ≢ "") × (name ≢ "")
  IsFilled (change_email user_id email) = (user_id ≢ "") × (email ≢ "")
  IsFilled (change_login_credentials user_id name password) =
      (user_id ≢ "") × (name ≢ "") × (password ≢ "")
  IsFilled (reset_login_credentials _ _ _) = Unit {0}

  abbrev masked : Error → Exec (List Writer.Call) (Unit {0})
  masked e = handle_processing_error g encode (mask_error g e)

  masked_page : (e : Error) → IsErrorPage encode encodes (masked e [])
  masked_page e = handle_processing_error-IsErrorPage encode encodes g (mask_error g e)

  no_email : (req : Request) → req.form "email" ≡ none → Handlers.email req ≡ ("", false)
  unfolding Handlers.email
  no_email req e = rw (e, Handlers.email) refl

  -- A client whose requests reach the server, at a call that changes a user, with no empty argument that
  -- the handler tests: the client returns no error exactly where the method of the service succeeds
  -- that the call is for, and leaves the world as that method leaves it.
  pub sent-method :
      (c : ChangeCall) (w : World S F H)
      → IsFilled c
      → (((sent c w).0 ≡ ok tt) ↔ ((a : ResultOf c) × ((method c w).0 ≡ ok a)))
        × ((sent c w).1 ≡ (method c w).1)
  unfolding api_verify_email verify_email_call api_change_profile_name change_profile_name_call
      api_change_email change_email_call api_change_login_credentials change_login_credentials_call
      api_reset_login_credentials reset_login_credentials_call serve serve_verify_email user_id
      serve_change_profile_name serve_change_email serve_change_login_credentials
      serve_reset_credentials_token answer answer_unmasked write_no_content routes
  sent-method (verify_email id) w filled =
      change-Meets (Users.set_email_verified g deps id) masked masked_page "verify_email"
        Route.verify_email (("id", id) ∷ []) w refl
        (rw
          (
            is_served.form_value "id" (("id", id) ∷ []),
            filled_test filled,
            no_email (is_served.request_of (("id", id) ∷ []))
                (is_served.form_missing "email" (("id", id) ∷ []) refl),
          )
          refl)
  sent-method (change_profile_name id name) w (h, k) =
      let form : Values = ("id", id) ∷ ("profile_name", name) ∷ [] in
      change-Meets (Users.change_profile_name g deps id name) masked masked_page
        "change_profile_name" Route.change_profile_name form w refl
        (rw
          (
            is_served.form_value "id" form,
            is_served.form_value "profile_name" form,
            filled_test h,
            filled_test k,
          )
          refl)
  sent-method (change_email id email) w (h, k) =
      let form : Values = ("id", id) ∷ ("email", email) ∷ [] in
      change-Meets (Users.change_email g deps id email) masked masked_page "change_email"
        Route.change_email form w refl
        (rw
          (
            is_served.form_value "id" form,
            is_served.form_value "email" form,
            filled_test h,
            filled_test k,
          )
          refl)
  sent-method (change_login_credentials id name password) w (h, k, l) =
      let form : Values = ("id", id) ∷ ("name", name) ∷ ("password", password) ∷ [] in
      change-Meets (Users.change_login_credentials g deps id name password) masked masked_page
        "change_login_credentials" Route.change_login_credentials form w refl
        (rw
          (
            is_served.form_value "id" form,
            is_served.form_value "name" form,
            is_served.form_value "password" form,
            filled_test h,
            filled_test k,
            filled_test l,
          )
          refl)
  sent-method (reset_login_credentials token name password) w filled =
      let form : Values =
        ("login_name", name) ∷ ("token", token) ∷ ("login_password", password) ∷ [] in
      change-Meets (reset_credentials_with_token g deps config token name password)
        (handle_processing_error g encode) (handle_processing_error-IsErrorPage encode encodes g)
        "reset_login_credentials" Route.reset_credentials_token form w refl
        (rw
          (
            is_served.form_value "token" form,
            is_served.form_value "login_name" form,
            is_served.form_value "login_password" form,
          )
          refl)
