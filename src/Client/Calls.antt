-- ===== src/Client/Calls.antt =====
-- client/api.go: the calls of the API. Decoders of encoding/json are parameters.
use Prim.Native.String.{◌++◌}
use userd.Common.{ℕ, String, Bool, [], ◌∷◌, some, not, nat_eq, ◌==◌, if◌then◌else◌}
use userd.Errors.{Error, ErrGo, mask_all}
use userd.Exec.{
  Outcome, ok, err, panic, Exec, pure, fail, abort, lift, map_error, map_outcome, attempt, ◌>>=◌,
  ◌>>◌,
}
use userd.Client.{Values, Response, Result, nothing, other, text, Http, Call, plain_call, execute}

pub record ApiUser : Type 0 where
  pub profile_name : String
  pub login_name : String
  pub email : String
  pub email_verified : Bool

-- What the calls use besides net/http: the endpoint, the error UnexpectedStatusCode, and the decoders
-- of a user and of the map with a token.
pub record Api (N : Type 0) : Type 0 where
  pub http : Http N
  pub endpoint : String
  pub unexpected_status_code : Error
  pub decode_user : String → Outcome ApiUser
  pub decode_token : String → Outcome Result

unfoldable pub set_endpoint : {N : Type 0} → String → Api N → Api N
set_endpoint url api = record api { endpoint = url }

-- A method of a call that returns nil and no error.
abbrev pub no_result : Response → Outcome Result
no_result response = ok nothing

-- A result for the value of a successful outcome.
abbrev and_then : {A B : Type 0} → Outcome A → (A → Outcome B) → Outcome B
and_then (ok a) f = f a
and_then (err e) f = err e
and_then panic f = panic

module _ (g : ErrGo) {N : Type 0} (api : Api N) where
  unfoldable pub endpoint : String → String
  endpoint action = api.endpoint ++ action

  -- BodyReader.ResponseOK and BodyReader.ResponseBadRequest
  unfoldable pub body_ok : Response → Outcome Result
  body_ok response =
      and_then (map_outcome (mask_all g) response.read_all) (λ bytes. ok (text bytes))

  unfoldable pub body_bad_request : Response → Outcome Result
  body_bad_request response =
      and_then (map_outcome (mask_all g) response.read_all)
        (λ bytes. err (api.http.new_error bytes))

  unfoldable pub verify_email_call : (user_id email : String) → Call
  verify_email_call user_id email = record plain_call {
    post_form =
        if not (email == "")
        then some (("id", user_id) ∷ ("email", email) ∷ [])
        else some (("id", user_id) ∷ []);
    response_no_content = some no_result;
  }

  unfoldable pub authenticate_call : (name password : String) → Call
  authenticate_call name password = record plain_call {
    post_form = some (("name", name) ∷ ("password", password) ∷ []);
    response_ok = some body_ok;
    response_bad_request = some body_bad_request;
  }

  unfoldable pub change_profile_name_call : (id profile_name : String) → Call
  change_profile_name_call id profile_name = record plain_call {
    post_form = some (("id", id) ∷ ("profile_name", profile_name) ∷ []);
    response_no_content = some no_result;
  }

  unfoldable pub change_email_call : (id email : String) → Call
  change_email_call id email = record plain_call {
    post_form = some (("id", id) ∷ ("email", email) ∷ []);
    response_no_content = some no_result;
  }

  unfoldable pub change_login_credentials_call : (id login password : String) → Call
  change_login_credentials_call id login password = record plain_call {
    post_form = some (("id", id) ∷ ("name", login) ∷ ("password", password) ∷ []);
    response_no_content = some no_result;
  }

  unfoldable pub new_reset_password_token_call : (email : String) → Call
  new_reset_password_token_call email = record plain_call {
    post_form = some (("email", email) ∷ []);
    response_ok = some (λ response.
        map_outcome (mask_all g) (and_then response.read_all (λ bytes. api.decode_token bytes)));
  }

  unfoldable pub reset_login_credentials_call : (token login_name login_password : String) → Call
  reset_login_credentials_call token login_name login_password = record plain_call {
    post_form =
        some
          (("login_name", login_name) ∷ ("token", token) ∷ ("login_password", login_password) ∷ []);
    response_no_content = some no_result;
  }

  -- `_, err := Execute(...); return errgo.Mask(err)`
  unfoldable pub change : (action : String) → Call → Exec N (Unit {0})
  change action call = do map_error (mask_all g) (execute api.http (endpoint action) call); pure tt

  -- `result.(string)` panics at a value that is no text.
  unfoldable pub as_text : Result → Exec N String
  as_text (text s) = pure s
  as_text nothing = abort
  as_text other = abort

  unfoldable pub api_verify_email : (user_id : String) → Exec N (Unit {0})
  api_verify_email user_id = change "verify_email" (verify_email_call user_id "")

  unfoldable pub api_authenticate : (login_name login_password : String) → Exec N String
  api_authenticate login_name login_password = do
    user_id ←
        map_error (mask_all g)
          (execute api.http (endpoint "authenticate") (authenticate_call login_name login_password))
    as_text user_id

  unfoldable pub api_change_profile_name : (user_id profile_name : String) → Exec N (Unit {0})
  api_change_profile_name user_id profile_name =
      change "change_profile_name" (change_profile_name_call user_id profile_name)

  unfoldable pub api_change_email : (user_id new_email : String) → Exec N (Unit {0})
  api_change_email user_id new_email = change "change_email" (change_email_call user_id new_email)

  unfoldable pub api_change_login_credentials : (user_id name password : String) → Exec N (Unit {0})
  api_change_login_credentials user_id name password =
      change "change_login_credentials" (change_login_credentials_call user_id name password)

  unfoldable pub api_new_reset_password_token : (email : String) → Exec N String
  api_new_reset_password_token email = do
    token ← map_error (mask_all g) (
        execute api.http (endpoint "new_reset_login_credentials_token")
          (new_reset_password_token_call email))
    as_text token

  unfoldable pub api_reset_login_credentials :
      (token login_name login_password : String) → Exec N (Unit {0})
  api_reset_login_credentials token login_name login_password =
      change "reset_login_credentials"
        (reset_login_credentials_call token login_name login_password)

  -- An error of PostForm is a panic.
  unfoldable pub post_form_and_expect : (action : String) → Values → ℕ → Exec N String
  post_form_and_expect action params expected =
      attempt (api.http.post_form (endpoint action) params)
        (λ response.
          if not (nat_eq response.status_code expected)
          then fail api.unexpected_status_code
          else map_error (mask_all g) (lift response.read_all))
        (λ e. abort)

  unfoldable pub api_create_user :
      (profile_name email login_name login_password : String) → Exec N String
  api_create_user profile_name email login_name login_password =
      post_form_and_expect "create"
        (("profile_name", profile_name)
          ∷ ("email", email)
          ∷ ("login_name", login_name)
          ∷ ("login_password", login_password)
          ∷ [])
        201

  unfoldable pub expect : Response → ℕ → Exec N Response
  expect response expected =
      if not (nat_eq response.status_code expected)
      then fail api.unexpected_status_code
      else pure response

  unfoldable pub get_and_expect : (action : String) → Values → ℕ → Exec N Response
  get_and_expect action params expected = do
    response ←
        map_error (mask_all g) (api.http.get ((endpoint action ++ "?") ++ api.http.encode params))
    expect response expected

  unfoldable pub api_get_user : (user_id : String) → Exec N ApiUser
  api_get_user user_id = do
    response ← map_error (mask_all g) (get_and_expect "get" (("id", user_id) ∷ []) 200)
    lift (and_then response.read_all (λ bytes. api.decode_user bytes))
