-- ===== src/Api/Routes.antt =====
-- middlewares/v1/web.go: the routes of NewUserAPIHandler, and the handler of each. Which route a
-- request takes is decided by gorilla/mux, which is not modelled.
use userd.Common.{String, ◌==◌, ◌&&◌, Option, none, some, List, [], ◌∷◌, if◌then◌else◌}
use userd.Errors.{ErrGo}
use userd.User.{Time}
use userd.Exec.{Outcome, Exec}
use userd.Service.Backends.{Config, Dependencies}
use userd.Service.Collector.{EventCollector}
use userd.Api.Writer.{Call, Object}
use userd.Api.Handlers.{
  Request, Handler, serve_create_user, serve_get_user, serve_change_login_credentials,
  serve_change_profile_name, serve_change_email, serve_authenticate, serve_verify_email,
  serve_new_reset_login_credentials, serve_reset_credentials_token, serve_feed,
}

-- A handler object, without the BaseHandler that all share.
pub data Route : Type 0 where
  create_user get_user change_login_credentials change_email change_profile_name : Route
  verify_email authentication new_reset_login_credentials reset_credentials_token : Route
  feed_writer : Route

-- The calls `mux.Methods(...).Path(...).Handler(...)`, in order.
unfoldable pub routes : List (String × String × Route)
routes =
    ("POST", "/v1/user/create", create_user)
    ∷ ("GET", "/v1/user/get", get_user)
    ∷ ("POST", "/v1/user/change_login_credentials", change_login_credentials)
    ∷ ("POST", "/v1/user/change_email", change_email)
    ∷ ("POST", "/v1/user/change_profile_name", change_profile_name)
    ∷ ("POST", "/v1/user/verify_email", verify_email)
    ∷ ("POST", "/v1/user/authenticate", authentication)
    ∷ ("POST", "/v1/user/new_reset_login_credentials_token", new_reset_login_credentials)
    ∷ ("POST", "/v1/user/reset_login_credentials", reset_credentials_token)
    ∷ ("GET", "/v1/feed", feed_writer)
    ∷ []

-- The route that a method and a path take: the first that has them.
abbrev pub route_at : (method path : String) → List (String × String × Route) → Option Route
route_at method path [] = none
route_at method path ((m, p, route) ∷ rest) =
    if m == method && p == path then some route else route_at method path rest

module _ (g : ErrGo) {S F H : Type 0} (deps : Dependencies S F H) (encode : Object → Outcome String)
    (marshal_item : (tag : String) → Time → (message : String) → Outcome String)
    (encode_item : Outcome String → Exec (List Call) (Unit {0})) (config : Config)
    (esc : EventCollector) where
  -- The handler's ServeHTTP.
  unfoldable pub serve : Route → Request → Handler g deps encode
  serve create_user req = serve_create_user g deps encode req
  serve get_user req = serve_get_user g deps encode req
  serve change_login_credentials req = serve_change_login_credentials g deps encode req
  serve change_email req = serve_change_email g deps encode req
  serve change_profile_name req = serve_change_profile_name g deps encode req
  serve verify_email req = serve_verify_email g deps encode req
  serve authentication req = serve_authenticate g deps encode config req
  serve new_reset_login_credentials req = serve_new_reset_login_credentials g deps encode req
  serve reset_credentials_token req = serve_reset_credentials_token g deps encode config req
  serve feed_writer req = serve_feed g deps encode marshal_item encode_item esc
