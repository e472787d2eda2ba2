-- ===== src/Tests/Client.antt =====
-- A client that reaches the server with the concrete dependencies: a form that is posted under a path
-- is served by the route with that path.
use Prim.Native.String.{◌++◌}
use text.Mathlib.TextLemmas.{cons-append, nil-append}
use userd.Common.{
  zero, suc, ℕ, String, ◌≡◌, ◌↔◌, refl, ap, Bool, false, ◌==◌, if◌then◌else◌, arith, eq_iff, List,
  [], ◌∷◌, Option, none, some,
}
use userd.Errors.{foreign}
use userd.Errors.Instance.{errgo}
use userd.Exec.{Outcome, ok, err, panic}
use userd.Storage.Local.{LocalState}
use userd.Service.Backends.{World}
use userd.Service.Login.{authenticate}
use userd.Api.Answers.{statuses}
use userd.Api.Handlers.{
  Request, Serving, user_object, serve_create_user, answer, on_service, on_writer,
}
use userd.Api.Writer.{Object, Value, flag, call}
use userd.Api.Routes.{route_at, Route, routes, serve}
use userd.Client.{Values, Response, Result}
use userd.Client.Calls.{
  Api, ApiUser, endpoint, api_new_reset_password_token, api_reset_login_credentials,
  api_authenticate, api_create_user, post_form_and_expect, api_get_user,
}
use userd.Client.Network.{value_of, written, IsServed}
use userd.Client.Journey.{api_get_user-api_create_user}
use userd.Client.Recovery.{api_reset_login_credentials-api_new_reset_password_token}
use userd.Client.Changes.{change_email, sent, sent-method}
use userd.Service.Users
use userd.User.{User, zero_user}
use userd.Client.Server.{api_authenticate-authenticate}
use userd.Tests.Api
use userd.Tests.Collector.{empty_collector}
use userd.Tests.World.{deps, directory, storable, marshals, start, start-IsValid, config}
use userd.Tests.Codec
use userd.Tests.Journeys.{service, created, verified, ann, ann_stored, created-IsValid}
use userd.Tests.Success.{only_ann, filled}

abbrev W : Type 0
W = World LocalState ℕ ℕ

-- An encoder that keeps the members of a user, in the form of Codec, and its decoder.
abbrev text_at : String → Object → String
text_at name [] = ""
text_at name ((key, Value.text value) ∷ members) =
    if key == name then value else text_at name members
text_at name ((key, flag value) ∷ members) = text_at name members

abbrev flag_at : String → Object → Bool
flag_at name [] = false
flag_at name ((key, flag value) ∷ members) = if key == name then value else flag_at name members
flag_at name ((key, Value.text value) ∷ members) = flag_at name members

abbrev line_of : Object → String
line_of o = Codec.encode (record zero_user {
  profile_name = text_at "profile_name" o;
  login_name = text_at "login_name" o;
  email = text_at "email" o;
  email_verified = flag_at "email_verified" o;
  reset_password_token = text_at "token" o;
})

abbrev encode : Object → Outcome String
encode o = ok (line_of o)

encodes : (o : Object) → (line : String) × (encode o ≡ ok line)
encodes o = (line_of o, refl)

abbrev as_api_user : Outcome User → Outcome ApiUser
as_api_user (ok u) = ok (record {
  profile_name = u.profile_name;
  login_name = u.login_name;
  email = u.email;
  email_verified = u.email_verified;
})
as_api_user (err e) = err e
as_api_user panic = panic

abbrev as_token : Outcome User → Outcome Result
as_token (ok u) = ok (Result.text u.reset_password_token)
as_token (err e) = err e
as_token panic = panic

abbrev request_of : Values → Request
request_of values = record {
  form_value = λ name. value_of name values;
  post_form_value = λ name. value_of name values;
  form = λ name. none;
}

abbrev first_status : List ℕ → ℕ
first_status [] = 200
first_status (code ∷ codes) = code

-- What net/http makes of a handler's run.
abbrev respond : Outcome (Unit {0}) → Serving LocalState ℕ ℕ → Outcome Response × W
respond (ok a) s = (
  ok (record { status_code = first_status (statuses s.calls); read_all = ok (written s.calls) }),
  s.world,
)
respond (err e) s = (err (foreign 2), s.world)
respond panic s = (err (foreign 2), s.world)

-- The handler of a route, for any client.
abbrev run : Route → Values → W → Outcome (Unit {0}) × Serving LocalState ℕ ℕ
run route values w =
    serve errgo deps encode Api.marshal_item Api.encode_item config empty_collector route
      (request_of values) (record { world = w; calls = [] })

abbrev post_to : Option Route → Values → W → Outcome Response × W
post_to none values w = (err (foreign 2), w)
post_to (some route) values w = let r = run route values w in respond r.0 r.1

-- The text behind so many characters.
abbrev skip : ℕ → String → String
skip zero s = s
skip (suc n) String.[] = String.[]
skip (suc n) (String.◌∷◌ c s) = skip n s

abbrev size : String → ℕ
size String.[] = 0
size (String.◌∷◌ c s) = suc (size s)

skip-append : (p s : String) → skip (size p) (p ++ s) ≡ s
skip-append String.[] s = nil-append s
skip-append (String.◌∷◌ c p) s = rw cons-append (skip-append p s)

abbrev api : Api W
api = record {
  http = record {
    get = λ url w. post_to (some Route.get_user) (("id", skip 13 url) ∷ []) w;
    post_form = λ url values w. post_to (route_at "POST" url routes) values w;
    post = λ url content_type body w. (err (foreign 2), w);
    encode = λ values. value_of "id" values;
    no_handler = λ status method url. foreign 3;
    new_error = λ message. foreign 4;
  };
  endpoint = "/v1/user/";
  unexpected_status_code = foreign 5;
  decode_user = λ bytes. as_api_user (Codec.read_text (Codec.decode bytes));
  decode_token = λ bytes. as_token (Codec.read_text (Codec.decode bytes));
}

api-IsServed :
    IsServed errgo deps encode encodes Api.marshal_item Api.encode_item config empty_collector api
api-IsServed = record {
  request_of = request_of;
  query_request = request_of;
  form_value = λ name values. refl;
  form_missing = λ name values e. refl;
  query_value = λ name values. refl;
  post_form_value = λ name values. refl;
  answered = λ action route values w code found done one. rw (found, done, one) refl;
  got = λ id w code done one. rw (skip-append "/v1/user/get?" id, done, one) refl;
  dropped = λ action route values w found stopped. (foreign 2, rw (found, stopped) refl);
}

api_authenticate-authenticate_example :
    ((id : String)
      → ((api_authenticate errgo api "ann" "secret" verified).0 ≡ ok id)
        ↔ ((authenticate errgo deps config "ann" "secret" verified).0 ≡ ok id))
    × ((api_authenticate errgo api "ann" "secret" verified).1
        ≡ (authenticate errgo deps config "ann" "secret" verified).1)
api_authenticate-authenticate_example =
    api_authenticate-authenticate errgo deps encode encodes Api.marshal_item Api.encode_item config
      empty_collector api api-IsServed "ann" "secret" verified
      (λ e. ground (arith, eq_iff "ann" "")) (λ e. ground (arith, eq_iff "secret" ""))

decodes :
    (u : User) (line : String)
    → encode (user_object u) ≡ ok line
    → api.decode_user line
      ≡ ok (record {
        profile_name = u.profile_name;
        login_name = u.login_name;
        email = u.email;
        email_verified = u.email_verified;
      })
unfolding user_object
decodes u line e = ap as_api_user (Codec.read_text-encode _ line e)

-- The concrete network, opened for runs.
network : Unit {0}
unfolding service routes serve serve_create_user answer on_service on_writer call endpoint
    api_create_user post_form_and_expect
network = tt

returned : (api_create_user errgo api "Ann" "ann@x" "ann" "secret" start).0 ≡ ok "u"
unfolding network
returned = refl

api_get_user-api_create_user_example :
    (api_get_user errgo api "u" (api_create_user errgo api "Ann" "ann@x" "ann" "secret" start).1).0
    ≡ ok (record {
      profile_name = "Ann";
      login_name = "ann";
      email = "ann@x";
      email_verified = false;
    })
api_get_user-api_create_user_example =
    api_get_user-api_create_user errgo deps encode encodes Api.marshal_item Api.encode_item config
      empty_collector api api-IsServed directory storable marshals decodes "Ann" "ann@x" "ann"
      "secret" "u" start start-IsValid returned

sent-method_example :
    (((sent errgo deps encode encodes Api.marshal_item Api.encode_item config empty_collector api
          api-IsServed
          (change_email "u" "a@y")
          created).0
        ≡ ok tt)
      ↔ (Unit {0} × ((Users.change_email errgo deps "u" "a@y" created).0 ≡ ok tt)))
    × ((sent errgo deps encode encodes Api.marshal_item Api.encode_item config empty_collector api
          api-IsServed
          (change_email "u" "a@y")
          created).1
        ≡ (Users.change_email errgo deps "u" "a@y" created).1)
sent-method_example =
    sent-method errgo deps encode encodes Api.marshal_item Api.encode_item config empty_collector
      api api-IsServed (change_email "u" "a@y") created
      ((λ e. ground (arith, eq_iff "u" "")), (λ e. ground (arith, eq_iff "a@y" "")))

decodes_token :
    (token line : String)
    → encode (("token", Value.text token) ∷ []) ≡ ok line
    → api.decode_token line ≡ ok (Result.text token)
decodes_token token line e = ap as_token (Codec.read_text-encode _ line e)

-- The token is "it", and lives for 60 time units.
api_reset_login_credentials-api_new_reset_password_token_example :
    ((api_new_reset_password_token errgo api "ann@x" created).0 ≡ ok "it")
    × ((api_reset_login_credentials errgo api "it" "anna" "new"
          (record (api_new_reset_password_token errgo api "ann@x" created).1 { clock = 130 })).0
        ≡ ok tt)
unfolding service
api_reset_login_credentials-api_new_reset_password_token_example =
    api_reset_login_credentials-api_new_reset_password_token errgo deps encode encodes
      Api.marshal_item Api.encode_item config empty_collector api api-IsServed decodes_token
      directory storable marshals "u" "anna" "new" "#new" ann created 130 created-IsValid ann_stored
      (filled "it" refl) (λ id v at _ _. only_ann id v at) (filled "anna" refl) (filled "new" refl)
      (λ id v at _ _. only_ann id v at) refl refl
