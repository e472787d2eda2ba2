-- ===== src/Client/Server.antt =====
-- client/api.go against middlewares/v1/web.go: what ApiAuthenticate returns where the requests of the
-- client reach the handlers of the server.
use Prim.Native.String.{◌++◌}
use text.Mathlib.TextLemmas.{append-nil}
use userd.Common.{ℕ, String, ◌≡◌, ◌≢◌, ◌↔◌, refl, ap, ◌∙◌, List, [], ◌∷◌, inl, inr}
use userd.Errors.{Error, ErrGo}
use userd.User.{Time}
use userd.Exec.{Outcome, ok, err, panic, Exec}
use userd.Service.Backends.{Config, Dependencies, World}
use userd.Service.Login.{authenticate}
use userd.Service.Collector.{EventCollector}
use userd.Service.Success.{filled_test}
use userd.Api.Writer
use userd.Api.Writer.{Object, write_header, write, call}
use userd.Api.Errors.{mask_error}
use userd.Api.Answers.{statuses, IsErrorStatus, handle_processing_error-IsErrorPage}
use userd.Api.Handlers.{Serving, serve_authenticate, answer, on_service, on_writer}
use userd.Api.Routes.{authentication, routes, serve}
use userd.Client.{Values, handler_of, send, handle_response, with_query, request_error, execute}
use userd.Client.Network.{served, written, IsServed}
use userd.Client.Calls.{
  Api, endpoint, body_ok, body_bad_request, authenticate_call, as_text, api_authenticate,
}

module _ (g : ErrGo) {S F H : Type 0} (deps : Dependencies S F H) (encode : Object → Outcome String)
    (encodes : (o : Object) → (line : String) × (encode o ≡ ok line))
    (marshal_item : (tag : String) → Time → (message : String) → Outcome String)
    (encode_item : Outcome String → Exec (List Writer.Call) (Unit {0})) (config : Config)
    (esc : EventCollector) (api : Api (World S F H)) where
  module _ (is_served : IsServed g deps encode encodes marshal_item encode_item config esc api)
      (name password : String) (w : World S F H) (name_given : name ≢ "")
      (password_given : password ≢ "") where
    abbrev form : Values
    form = ("name", name) ∷ ("password", password) ∷ []

    abbrev result : Outcome String × World S F H
    result = authenticate g deps config name password w

    abbrev reply : Outcome (Unit {0}) × Serving S F H
    reply =
        served g deps encode encodes marshal_item encode_item config esc api authentication
          (is_served.request_of form) w

    accepted_lem :
        (id : String)
        → result.0 ≡ ok id
        → reply ≡ (ok tt, record { world = result.1; calls = write_header 200 ∷ write id ∷ [] })
    unfolding serve serve_authenticate answer on_service on_writer call
    accepted_lem id e =
        rw
          (
            is_served.post_form_value "name" form,
            is_served.post_form_value "password" form,
            filled_test name_given,
            filled_test password_given,
            e,
          )
          refl

    -- The response to the client.
    responds :
        (code : ℕ)
        → (reply.0 ≡ ok tt)
        → (statuses reply.1.calls ≡ code ∷ [])
        → api.http.post_form (api.endpoint ++ "authenticate") form w ≡ (
          ok (record { status_code = code; read_all = ok (written reply.1.calls) }),
          reply.1.world,
        )
    unfolding routes
    responds code done one =
        is_served.answered "authenticate" authentication form w code refl done one

    succeeds :
        (id : String)
        → result.0 ≡ ok id
        → api_authenticate g api name password w ≡ (ok id, result.1)
    unfolding api_authenticate execute send with_query request_error handle_response handler_of
        authenticate_call body_ok body_bad_request as_text endpoint
    succeeds id e =
        let accepted = accepted_lem id e in
        rw (responds 200 (ap (λ r. r.0) accepted) (ap (λ r. statuses r.1.calls) accepted), accepted)
          (ap (λ x. (ok x, result.1)) (append-nil id))

    -- An answer to an error of the service.
    refused_lem :
        (e : Error)
        → result.0 ≡ err e
        → (code : ℕ) × IsErrorStatus code
          × (reply.0 ≡ ok tt)
          × (statuses reply.1.calls ≡ code ∷ [])
          × (reply.1.world ≡ result.1)
    unfolding serve serve_authenticate answer on_service on_writer call
    refused_lem e h =
        let (code, message, is_error, page) =
          handle_processing_error-IsErrorPage encode encodes g (mask_error g e) in
        rw
          (
            is_served.post_form_value "name" form,
            is_served.post_form_value "password" form,
            filled_test name_given,
            filled_test password_given,
            h,
          )
          (code, is_error, ap (λ r. r.0) page, ap (λ r. statuses r.1) page, refl)

    -- What the client returns at an error status.
    fails :
        (code : ℕ)
        → IsErrorStatus code
        → (reply.0 ≡ ok tt)
        → (statuses reply.1.calls ≡ code ∷ [])
        → ((id : String) → (api_authenticate g api name password w).0 ≢ ok id)
          × ((api_authenticate g api name password w).1 ≡ reply.1.world)
    unfolding api_authenticate execute send with_query request_error handle_response handler_of
        authenticate_call body_ok body_bad_request as_text endpoint
    fails code (inl e) done one = rw (responds code done one, e) ((λ id h. cc), refl)
    fails code (inr (inl e)) done one = rw (responds code done one, e) ((λ id h. cc), refl)
    fails code (inr (inr e)) done one = rw (responds code done one, e) ((λ id h. cc), refl)

    panicked_lem : result.0 ≡ panic → (reply.0 ≡ panic) × (reply.1.world ≡ result.1)
    unfolding serve serve_authenticate answer on_service on_writer
    panicked_lem h =
        rw
          (
            is_served.post_form_value "name" form,
            is_served.post_form_value "password" form,
            filled_test name_given,
            filled_test password_given,
            h,
          )
          (refl, refl)

    -- What the client returns where the handler panics.
    drops :
        reply.0 ≡ panic
        → ((id : String) → (api_authenticate g api name password w).0 ≢ ok id)
          × ((api_authenticate g api name password w).1 ≡ reply.1.world)
    unfolding api_authenticate execute send with_query request_error handle_response handler_of
        authenticate_call body_ok body_bad_request as_text endpoint routes
    drops h =
        let (e, dropped) = is_served.dropped "authenticate" authentication form w refl h in
        rw dropped ((λ id h. cc), refl)

    -- A client whose requests reach the server: with a name and a password that are not empty,
    -- ApiAuthenticate returns an id exactly where Authenticate of the service returns it, and leaves the
    -- world as that call leaves it.
    pub api_authenticate-authenticate :
        ((id : String)
          → ((api_authenticate g api name password w).0 ≡ ok id)
            ↔ ((authenticate g deps config name password w).0 ≡ ok id))
        × ((api_authenticate g api name password w).1
            ≡ (authenticate g deps config name password w).1)
    api_authenticate-authenticate = go result.0 refl
      where
        go :
            (r : Outcome String)
            → result.0 ≡ r
            → ((id : String)
                → ((api_authenticate g api name password w).0 ≡ ok id) ↔ (result.0 ≡ ok id))
              × ((api_authenticate g api name password w).1 ≡ result.1)
        go (ok id) e =
            let returned = succeeds id e in
            ((λ id'. rw (returned, e) ((λ h. h), (λ h. h))), ap (λ r. r.1) returned)
        go (err x) e =
            let (code, is_error, done, one, world) = refused_lem x e in
            let (never, left) = fails code is_error done one in
            ((λ id. ((λ h. absurd (never id h)), (λ h. cc))), left ∙ world)
        go panic e =
            let (stopped, world) = panicked_lem e in
            let (never, left) = drops stopped in
            ((λ id. ((λ h. absurd (never id h)), (λ h. cc))), left ∙ world)
