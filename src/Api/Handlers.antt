-- ===== src/Api/Handlers.antt =====
-- middlewares/v1/web.go: the handlers, each over the service's world and the calls made so far.
use Prim.Native.String.{◌++◌}
use userd.Common.{
  String, Bool, true, false, not, ◌||◌, List, [], ◌∷◌, Option, none, some, ◌==◌, if◌then◌else◌,
}
use userd.Errors.{ErrGo}
use userd.User.{Time, User}
use userd.Exec.{Outcome, Exec, attempt, ignore, ◌>>◌}
use userd.Service.Backends.{Config, Dependencies, World}
use userd.Service.Users.{
  create_user, get_user, change_login_credentials, change_profile_name, change_email,
  set_email_verified, check_and_set_email_verified,
}
use userd.Service.Login.{
  authenticate, new_reset_login_credentials_token, reset_credentials_with_token,
}
use userd.Service.Collector.{EventCollector, write_json_stream_once}
use userd.Api.Writer.{
  Call, add_header, set_header, write_header, write, text, flag, Object, call, write_json_response,
  write_bad_request, write_no_content,
}
use userd.Api.Errors.{mask_error, handle_processing_error}

-- What the handlers read of a request of net/http: a form value is "" where the form has none, and
-- `req.Form` is there once a form value has been read.
pub record Request : Type 0 where
  pub form_value : String → String
  pub post_form_value : String → String
  pub form : String → Option (List String)

-- The world of the service, and the calls of the response writer.
pub record Serving (S F H : Type 0) : Type 0 where
  pub world : World S F H
  pub calls : List Call

module _ {S F H : Type 0} where
  unfoldable pub on_service : {A : Type 0} → Exec (World S F H) A → Exec (Serving S F H) A
  on_service m s = let (r, w) = m s.world in (r, record s { world = w })

  unfoldable pub on_writer : {A : Type 0} → Exec (List Call) A → Exec (Serving S F H) A
  on_writer m s = let (r, calls) = m s.calls in (r, record s { calls = calls })

-- BaseHandler.UserID
unfoldable pub user_id : Request → String × Bool
user_id req = let id = req.form_value "id" in if id == "" then ("", false) else (id, true)

-- VerifyEmailHandler.Email
unfoldable pub email : Request → String × Bool
email req = elim (req.form "email") [
  | none ↦ ("", false)
  | some values ↦ elim values [
    | [] ↦ ("", false)
    | value ∷ values ↦ if value == "" then ("", false) else (value, true)
  ]
]

-- The object that writeUser encodes.
unfoldable pub user_object : User → Object
user_object user =
    ("profile_name", text user.profile_name)
    ∷ ("email", text user.email)
    ∷ ("login_name", text user.login_name)
    ∷ ("email_verified", flag user.email_verified)
    ∷ []

module _ (g : ErrGo) {S F H : Type 0} (deps : Dependencies S F H)
    (encode : Object → Outcome String) where
  abbrev pub Handler : Type 0
  Handler = Exec (Serving S F H) (Unit {0})

  -- `if err != nil { handleProcessingError(resp, req, MaskError(err)) } else { ... }`
  unfoldable pub answer :
      {A : Type 0} → Exec (World S F H) A → (A → Exec (List Call) (Unit {0})) → Handler
  answer m success =
      attempt (on_service m) (λ a. on_writer (success a))
        (λ e. on_writer (handle_processing_error g encode (mask_error g e)))

  -- The same with the error as it is.
  unfoldable pub answer_unmasked :
      {A : Type 0} → Exec (World S F H) A → (A → Exec (List Call) (Unit {0})) → Handler
  answer_unmasked m success =
      attempt (on_service m) (λ a. on_writer (success a))
        (λ e. on_writer (handle_processing_error g encode e))

  -- WriteBadRequest, with its messages.
  unfoldable pub refuse : List String → Handler
  refuse messages = on_writer (write_bad_request encode messages)

  unfoldable pub serve_create_user : Request → Handler
  serve_create_user req =
      answer
        (create_user g deps (req.post_form_value "profile_name") (req.post_form_value "email")
          (req.post_form_value "login_name") (req.post_form_value "login_password"))
        (λ id. do
          call (add_header "location" ("/v1/user/get?id=" ++ id))
          call (write_header 201)
          call (write id))

  unfoldable pub serve_get_user : Request → Handler
  serve_get_user req =
      let (id, given) = user_id req in
      if not given
      then refuse []
      else answer (get_user g deps id) (λ user. write_json_response encode 200 (user_object user))

  unfoldable pub serve_change_login_credentials : Request → Handler
  serve_change_login_credentials req =
      let (id, given) = user_id req in
      if not given
      then refuse []
      else if req.form_value "name" == ""
      then refuse ("Parameter 'name' is required." ∷ [])
      else if req.form_value "password" == ""
      then refuse []
      else answer
          (change_login_credentials g deps id (req.form_value "name") (req.form_value "password"))
          (λ _. call (write_header 204))

  unfoldable pub serve_change_profile_name : Request → Handler
  serve_change_profile_name req =
      let (id, given) = user_id req in
      if not given
      then refuse []
      else if req.form_value "profile_name" == ""
      then refuse []
      else answer (change_profile_name g deps id (req.form_value "profile_name"))
          (λ _. write_no_content)

  unfoldable pub serve_change_email : Request → Handler
  serve_change_email req =
      let (id, given) = user_id req in
      if not given
      then refuse []
      else if req.form_value "email" == ""
      then refuse []
      else answer (change_email g deps id (req.form_value "email")) (λ _. call (write_header 204))

  unfoldable pub serve_authenticate : Config → Request → Handler
  serve_authenticate config req =
      if req.post_form_value "name" == "" || req.post_form_value "password" == ""
      then refuse []
      else answer
          (authenticate g deps config (req.post_form_value "name") (req.post_form_value "password"))
          (λ id. do call (write_header 200); call (write id))

  unfoldable pub serve_verify_email : Request → Handler
  serve_verify_email req =
      let (id, given) = user_id req in
      let (address, email_given) = email req in
      if not given
      then refuse ("No id parameter given." ∷ [])
      else if email_given
      then answer (check_and_set_email_verified g deps id address) (λ _. call (write_header 204))
      else answer (set_email_verified g deps id) (λ _. call (write_header 204))

  unfoldable pub serve_new_reset_login_credentials : Request → Handler
  serve_new_reset_login_credentials req =
      answer_unmasked (new_reset_login_credentials_token g deps (req.form_value "email"))
        (λ token. write_json_response encode 200 (("token", text token) ∷ []))

  unfoldable pub serve_reset_credentials_token : Config → Request → Handler
  serve_reset_credentials_token config req =
      answer_unmasked
        (reset_credentials_with_token g deps config (req.form_value "token")
          (req.form_value "login_name") (req.form_value "login_password"))
        (λ id. write_no_content)

  -- The collector's items, through the encoder of encoding/json, whose error is dropped.
  unfoldable pub serve_feed :
      ((tag : String) → Time → (message : String) → Outcome String)
      → (Outcome String → Exec (List Call) (Unit {0}))
      → EventCollector
      → Handler
  serve_feed marshal encode_item esc = do
    on_writer (call (set_header "Content-Type" "application/json"))
    ignore (on_writer (write_json_stream_once marshal encode_item esc))
