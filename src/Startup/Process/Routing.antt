-- ===== src/Startup/Process/Routing.antt =====
-- Which handler the requests of the process reach (main.go and middlewares/v1/web.go).
use text.Mathlib.Text.{starts_with}
use userd.Common.{
  String, ◌≡◌, ◌≢◌, refl, sym, ap, ◌∙◌, Bool, not, true, false, ◌&&◌, ◌==◌, none, some, inl, inr,
  Option-cases, Bool-cases, text_cases, List, [], ◌∷◌, arith, eq_iff, eq_refl,
}
use userd.Errors.{ErrGo}
use userd.User.{Time}
use userd.Exec.{Outcome, Exec}
use userd.Service.Backends.{Config, Dependencies}
use userd.Api.Writer.{Call, Object}
use userd.Api.Routes.{Route, routes, serve, route_at}
use userd.Api.Logger.{Arrival}
use userd.Api.Welcome.{serve_welcome}
use userd.Startup.Process.{
  Process, Muxes, destination, api, page, api_call, serve_route, serve_at, serve_mux,
}

-- The method and the path at which API_v1.md has the call of each handler.
abbrev pub method_of : Route → String
method_of Route.get_user = "GET"
method_of Route.feed_writer = "GET"
method_of _ = "POST"

abbrev pub path_of : Route → String
path_of Route.create_user = "/v1/user/create"
path_of Route.get_user = "/v1/user/get"
path_of Route.change_login_credentials = "/v1/user/change_login_credentials"
path_of Route.change_email = "/v1/user/change_email"
path_of Route.change_profile_name = "/v1/user/change_profile_name"
path_of Route.verify_email = "/v1/user/verify_email"
path_of Route.authentication = "/v1/user/authenticate"
path_of Route.new_reset_login_credentials = "/v1/user/new_reset_login_credentials_token"
path_of Route.reset_credentials_token = "/v1/user/reset_login_credentials"
path_of Route.feed_writer = "/v1/feed"

abbrev pub Asks : String → String → Route → Type 0
Asks method path route = (method ≡ method_of route) × (path ≡ path_of route)

routed :
    (method path : String) (route : Route)
    → Asks method path route
    → route_at method path routes ≡ some route
unfolding routes
routed method path route (m, p) = rw (m, p) (each route)
  where
    each : (r : Route) → route_at (method_of r) (path_of r) routes ≡ some r
    each Route.create_user = refl
    each Route.get_user = refl
    each Route.change_login_credentials = refl
    each Route.change_email = refl
    each Route.change_profile_name = refl
    each Route.verify_email = refl
    each Route.authentication = refl
    each Route.new_reset_login_credentials = refl
    each Route.reset_credentials_token = refl
    each Route.feed_writer = refl

-- A table in which each row has the method and the path of its route.
abbrev AreAsked : List (String × String × Route) → Type 0
AreAsked [] = Unit {0}
AreAsked ((m, p, route) ∷ rest) = Asks m p route × AreAsked rest

asked :
    (method path : String) (table : List (String × String × Route)) (route : Route)
    → AreAsked table
    → route_at method path table ≡ some route
    → Asks method path route
asked method path [] route _ e = cc
asked method path ((m, p, r) ∷ rest) route ((own_m, own_p), others) e =
    elim (Bool-cases (m == method && p == path)) [
      | inl same ↦
          let here : some r ≡ some route = rw same at e in
          let r_eq : r ≡ route = cc in
          (
            sym ((eq_iff m method).0 (left same)) ∙ own_m ∙ ap method_of r_eq,
            sym ((eq_iff p path).0 (right same)) ∙ own_p ∙ ap path_of r_eq,
          )
      | inr other ↦ asked method path rest route others (rw other at e)
    ]
  where
    left : m == method && p == path ≡ true → m == method ≡ true
    left h = ground arith

    right : m == method && p == path ≡ true → p == path ≡ true
    right h = ground arith

routes-AreAsked : AreAsked routes
unfolding routes
routes-AreAsked = (
  (refl, refl),
  (
    (refl, refl),
    (
      (refl, refl),
      (
        (refl, refl),
        (
          (refl, refl),
          ((refl, refl), ((refl, refl), ((refl, refl), ((refl, refl), ((refl, refl), tt))))),
        ),
      ),
    ),
  ),
)

module _ (g : ErrGo) {S F H : Type 0} (deps : Dependencies S F H) (encode : Object → Outcome String)
    (marshal_item : (tag : String) → Time → (message : String) → Outcome String)
    (encode_item : Outcome String → Exec (List Call) (Unit {0})) (config : Config)
    (muxes : Muxes) where
  abbrev pub Result : Type 0
  Result = Outcome (Unit {0}) × (Process S F H × List Call)

  -- What a request leads to, by its method and its path alone.
  pub data Routed (req : Arrival) (p : Process S F H) (r : Result) : Type 0 where
    to_route :
        (route : Route)
        → Asks req.method req.path route
        → r
          ≡ api_call
              (serve g deps encode marshal_item encode_item config p.collector route req.request)
              (p, [])
        → Routed req p r
    to_none :
        starts_with req.path "/v1/" ≡ true
        → ((route : Route) → ¬ Asks req.method req.path route)
        → r ≡ page (muxes.not_found req) (p, [])
        → Routed req p r
    to_welcome :
        req.path ≢ "/v1"
        → starts_with req.path "/v1/" ≡ false
        → starts_with req.path "/" ≡ true
        → r ≡ page (serve_welcome encode) (p, [])
        → Routed req p r
    to_slash : req.path ≡ "/v1" → r ≡ page (muxes.redirect req) (p, []) → Routed req p r
    outside :
        starts_with req.path "/" ≡ false → r ≡ page (muxes.not_found req) (p, []) → Routed req p r

  module _ (req : Arrival) (p : Process S F H) (clean : muxes.clean_path req.path ≡ req.path)
      (first : (method path : String)
        → muxes.route_of routes method path ≡ route_at method path routes) where
    at_api :
        starts_with req.path "/v1/" ≡ true
        → Routed req p
            (serve_at g deps encode marshal_item encode_item config muxes api req (p, []))
    unfolding serve_at serve_route
    at_api below =
        rw (first req.method req.path) (elim (Option-cases (route_at req.method req.path routes)) [
          | inl absent ↦
              rw absent
                (to_none below (λ route asks. differ (sym absent ∙ routed _ _ route asks)) refl)
          | inr (route, found) ↦
              rw found (to_route route (asked _ _ routes route routes-AreAsked found) refl)
        ])
      where
        differ : {route : Route} → none ≢ some route
        differ e = cc

    not_clean : (b c : Bool) → c ≡ true → b && not c ≡ false
    not_clean b c h = ground arith

    -- A request whose path net/http finds clean, with a router that takes the first route that has the
    -- method and the path: it is served by the handler whose call API_v1.md has at that method and
    -- path; else by the page for what is not found, where the path begins with "/v1/"; it is redirected
    -- at "/v1"; any other path is served by the welcome page, where it begins with "/", and else by the
    -- page for what is not found.
    pub serve_mux-Routed :
        Routed req p (serve_mux g deps encode marshal_item encode_item config muxes req (p, []))
    unfolding serve_mux destination serve_at
    serve_mux-Routed = elim (text_cases req.path "/v1") [
      | inl (eq, same) ↦ rw eq (to_slash same refl)
      | inr (eq, other) ↦
          rw
            (
              eq,
              not_clean (not (req.method == "CONNECT")) (muxes.clean_path req.path == req.path)
                  (ap (λ x. x == req.path) clean ∙ eq_refl req.path),
            )
            (elim (Bool-cases (starts_with req.path "/v1/")) [
              | inl below ↦ rw below (at_api below)
              | inr above ↦ elim (Bool-cases (starts_with req.path "/")) [
                | inl absolute ↦ rw (above, absolute) (to_welcome other above absolute refl)
                | inr relative ↦ rw (above, relative) (outside relative refl)
              ]
            ])
    ]
