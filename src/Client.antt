-- ===== src/Client.antt =====
-- client/helper.go: Execute, which performs a call and hands the response to the call's handler. A call
-- that implements an interface has its method, else none. net/http is a parameter, over the state N
-- of the network, and so are the texts of the errors that are made here.
pub mod Calls
pub mod Network
pub mod Replies
pub mod Changes
pub mod Recovery
pub mod Journey
pub mod Server
use Prim.Native.String.{◌++◌}
use userd.Common.{ℕ, String, List, Option, none, some, nat_eq, if◌then◌else◌}
use userd.Errors.{Error}
use userd.Exec.{Outcome, err, Exec, lift, attempt}

-- url.Values, of which the calls use one value for a name.
abbrev pub Values : Type 0
Values = List (String × String)

-- What is read of a response: reading a body may fail.
pub record Response : Type 0 where
  pub status_code : ℕ
  pub read_all : Outcome String

-- A value of `interface{}`, as far as the calls tell them apart.
pub data Result : Type 0 where
  nothing other : Result
  text : String → Result

pub record Http (N : Type 0) : Type 0 where
  pub get : (url : String) → Exec N Response
  pub post_form : (url : String) → Values → Exec N Response
  pub post : (url content_type body : String) → Exec N Response
  pub encode : Values → String
  -- fmt.Errorf("No handler found for status code ...") and errors.New
  pub no_handler : (status_code : ℕ) → (method url : String) → Error
  pub new_error : String → Error

abbrev pub Handler : Type 0
Handler = Option (Response → Outcome Result)

pub record Call : Type 0 where
  pub query_params : Option Values
  pub post_form : Option Values
  -- The content type and the body.
  pub body : Option (String × String)
  pub response_ok : Handler
  pub response_created : Handler
  pub response_no_content : Handler
  pub response_not_found : Handler
  pub response_bad_request : Handler
  pub handle_fallback : Handler
  pub handle_request_error : Option (Error → Outcome Result)

-- A call that implements none of the interfaces.
abbrev pub plain_call : Call
plain_call = record {
  query_params = none;
  post_form = none;
  body = none;
  response_ok = none;
  response_created = none;
  response_no_content = none;
  response_not_found = none;
  response_bad_request = none;
  handle_fallback = none;
  handle_request_error = none;
}

-- The handler that the `switch` finds for a status.
unfoldable pub handler_of : Call → ℕ → Handler
handler_of call status =
    if nat_eq status 200
    then call.response_ok
    else if nat_eq status 201
    then call.response_created
    else if nat_eq status 204
    then call.response_no_content
    else if nat_eq status 404
    then call.response_not_found
    else if nat_eq status 400
    then call.response_bad_request
    else none

module _ {N : Type 0} (http : Http N) where
  -- The method that is named in the error, and the request.
  unfoldable pub send : (url : String) → Call → String × Exec N Response
  send url call = elim call.post_form [
    | some form ↦ ("POST", http.post_form url form)
    | none ↦ elim call.body [
      | some (content_type, body) ↦ ("POST", http.post url content_type body)
      | none ↦ ("GET", http.get url)
    ]
  ]

  unfoldable pub handle_response : (method url : String) → Call → Response → Outcome Result
  handle_response method url call response = elim (handler_of call response.status_code) [
    | some handler ↦ handler response
    | none ↦ elim call.handle_fallback [
      | some handler ↦ handler response
      | none ↦ err (http.no_handler response.status_code method url)
    ]
  ]

  unfoldable pub with_query : (url : String) → Option Values → String
  with_query url none = url
  with_query url (some params) = (url ++ "?") ++ http.encode params

  unfoldable pub request_error : Option (Error → Outcome Result) → Error → Outcome Result
  request_error none e = err e
  request_error (some handler) e = handler e

  unfoldable pub execute : (url : String) → Call → Exec N Result
  execute url call =
      let full = with_query url call.query_params in
      let (method, request) = send full call in
      attempt request (λ response. lift (handle_response method full call response))
        (λ e. lift (request_error call.handle_request_error e))
