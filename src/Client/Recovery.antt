-- ===== src/Client/Recovery.antt =====
-- ApiNewResetPasswordToken and then ApiResetLoginCredentials of client/api.go, against the handlers of
-- middlewares/v1/web.go, as in the test of the client.
use text.Mathlib.TextLemmas.{append-nil}
use userd.Common.{String, ◌≡◌, ◌≢◌, refl, ap, false, List, [], ◌∷◌, some}
use userd.Errors.{ErrGo}
use userd.User.{User, Time}
use userd.Exec.{Outcome, ok, Exec}
use userd.Storage.Directory.{IsDirectory}
use userd.Storage.Interface.{reset_password_tokens, login_names}
use userd.Service.Backends.{Config, Dependencies, World, Entry, after_by}
use userd.Service.Login.{new_reset_login_credentials_token}
use userd.Service.Success.{IsFreeAt}
use userd.Service.Recovery.{
  next_token, with_token, new_reset_login_credentials_token-ok,
  reset_credentials_with_token-new_reset_login_credentials_token,
}
use userd.Service.Collector.{EventCollector}
use userd.Api.Writer
use userd.Api.Writer.{Object, Value, add_header, write_header, write, call, write_json_response}
use userd.Api.Answers.{statuses, json_page, write_json_response_lem}
use userd.Api.Handlers.{
  Serving, answer_unmasked, on_service, on_writer, serve_new_reset_login_credentials,
}
use userd.Api.Routes.{Route, routes, serve}
use userd.Client.{Result, execute, send, handle_response, handler_of, with_query, request_error}
use userd.Client.Network.{served, IsServed}
use userd.Client.Changes.{reset_login_credentials, sent-method}
use userd.Client.Calls.{
  Api, endpoint, as_text, new_reset_password_token_call, api_new_reset_password_token,
  api_reset_login_credentials,
}

module _ (g : ErrGo) {S F H : Type 0} (deps : Dependencies S F H) (encode : Object → Outcome String)
    (encodes : (o : Object) → (line : String) × (encode o ≡ ok line))
    (marshal_item : (tag : String) → Time → (message : String) → Outcome String)
    (encode_item : Outcome String → Exec (List Writer.Call) (Unit {0})) (config : Config)
    (esc : EventCollector) (api : Api (World S F H))
    (is_served : IsServed g deps encode encodes marshal_item encode_item config esc api)
    (decodes : (token line : String)
      → encode (("token", Value.text token) ∷ []) ≡ ok line
      → api.decode_token line ≡ ok (Result.text token)) where
  module _ (email token : String) (w : World S F H)
      (issued : (new_reset_login_credentials_token g deps email w).0 ≡ ok token) where
    abbrev replied : Outcome (Unit {0}) × Serving S F H
    replied =
        served g deps encode encodes marshal_item encode_item config esc api
          Route.new_reset_login_credentials (is_served.request_of (("email", email) ∷ [])) w

    abbrev issued_world : World S F H
    issued_world = (new_reset_login_credentials_token g deps email w).1

    token_page : replied ≡ (
      ok tt,
      record {
        world = issued_world;
        calls = json_page encode encodes 200 (("token", Value.text token) ∷ []);
      },
    )
    unfolding serve serve_new_reset_login_credentials answer_unmasked on_service on_writer
    token_page =
        rw
          (
            is_served.form_value "email" (("email", email) ∷ []),
            issued,
            write_json_response_lem encode encodes 200 (("token", Value.text token) ∷ []),
          )
          refl

    -- The client returns the token of the service.
    api_new_reset_password_token_lem :
        api_new_reset_password_token g api email w ≡ (ok token, issued_world)
    unfolding api_new_reset_password_token execute send with_query request_error handle_response
        handler_of endpoint as_text new_reset_password_token_call routes
    api_new_reset_password_token_lem =
        let (line, encoded) = encodes (("token", Value.text token) ∷ []) in
        rw
          (
            is_served.answered "new_reset_login_credentials_token" Route.new_reset_login_credentials
                (("email", email) ∷ []) w 200 refl (ap (λ r. r.0) token_page)
                (ap (λ r. statuses r.1.calls) token_page),
            token_page,
            append-nil line,
            decodes token line encoded,
          )
          refl

  module _ (dir : IsDirectory g deps.user_storage) (storable : (u : User) → dir.IsStorable u)
      (marshals : (e : Entry) → (bytes : String) × (deps.marshal_entry e ≡ ok bytes)) where
    -- A client whose requests reach the server, over a valid storage, where encoding/json decodes what
    -- it encoded: for the email of a stored user, ApiNewResetPasswordToken returns the factory's next
    -- token, and ApiResetLoginCredentials with it, at a time when it has not expired, returns no error,
    -- if that token is not empty and no other user has it or the new login name, the login name and
    -- the password are not empty, and the hasher does not panic.
    pub api_reset_login_credentials-api_new_reset_password_token :
        (id login_name password hash : String) (u : User) (w : World S F H) (later : Time)
        → dir.IsValid w.store
        → dir.users w.store id ≡ some u
        → next_token g deps dir storable marshals w ≢ ""
        → IsFreeAt g deps dir storable marshals
            (dir.users w.store)
            (with_token g deps dir storable marshals w u)
            reset_password_tokens
        → login_name ≢ ""
        → password ≢ ""
        → IsFreeAt g deps dir storable marshals
            (dir.users w.store)
            (record u { login_name = login_name })
            login_names
        → after_by later w.clock config.reset_password_expire_time ≡ false
        → (deps.hasher.hash password (new_reset_login_credentials_token g deps u.email w).1.salt).0
          ≡ ok hash
        → ((api_new_reset_password_token g api u.email w).0
            ≡ ok (next_token g deps dir storable marshals w))
          × ((api_reset_login_credentials g api
                (next_token g deps dir storable marshals w)
                login_name
                password
                (record (api_new_reset_password_token g api u.email w).1 { clock = later })).0
              ≡ ok tt)
    api_reset_login_credentials-api_new_reset_password_token id login_name password hash u w later
          valid at has_token free filled filled' free_login fresh hashed =
        let issued =
          new_reset_login_credentials_token-ok g deps dir storable marshals id w u valid at free in
        let asked =
          api_new_reset_password_token_lem u.email (next_token g deps dir storable marshals w) w
            issued in
        let (returned, _) =
          reset_credentials_with_token-new_reset_login_credentials_token g deps dir storable
            marshals config id login_name password hash u w later valid at has_token free filled
            filled' free_login fresh hashed in
        let (meets, _) =
          sent-method g deps encode encodes marshal_item encode_item config esc api is_served
            (reset_login_credentials (next_token g deps dir storable marshals w) login_name
              password)
            (record (new_reset_login_credentials_token g deps u.email w).1 { clock = later }) tt in
        (ap (λ r. r.0) asked, rw asked (meets.1 (id, returned)))
