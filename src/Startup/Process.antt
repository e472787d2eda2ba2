-- ===== src/Startup/Process.antt =====
-- main.go from the mux on: the handler that the process serves its requests with. The routing of gorilla/mux, the cleaning of paths, and the pages of net/http for a
-- redirection and for a path that no handler has are parameters.
pub mod Routing
use text.Mathlib.Text.{starts_with}
use userd.Common.{String, not, ◌==◌, ◌&&◌, Option, none, some, List, [], ◌∷◌, ◌++◌, if◌then◌else◌}
use userd.Errors.{ErrGo}
use userd.User.{Time}
use userd.Exec.{Outcome, Exec}
use userd.Service.Backends.{Config, Dependencies, World}
use userd.Service.Collector.{EventCollector}
use userd.Api.Writer.{Call, Object}
use userd.Api.Handlers.{Serving}
use userd.Api.Routes.{Route, routes, serve}
use userd.Api.Logger.{Arrival, LogLine, HttpHandler}
use userd.Api.Welcome.{serve_welcome}

-- Where http.ServeMux sends a path, with the patterns "/" and "/v1/": the longest pattern that the path
-- begins with, after a redirection of a path that is not clean, or that only lacks its last slash.
pub data Destination : Type 0 where
  welcome api redirected nowhere : Destination

unfoldable pub destination : (clean_path : String → String) → (method path : String) → Destination
destination clean_path method path =
    if path == "/v1"
    then redirected
    else if not (method == "CONNECT") && not (clean_path path == path)
    then redirected
    else if starts_with path "/v1/"
    then api
    else if starts_with path "/"
    then welcome
    else nowhere

-- The parts of net/http and gorilla/mux that the handler uses.
pub record Muxes : Type 0 where
  pub clean_path : String → String
  pub redirect : Arrival → Exec (List Call) (Unit {0})
  pub not_found : Arrival → Exec (List Call) (Unit {0})
  pub route_of : List (String × String × Route) → (method path : String) → Option Route

-- The world of the service, its collector, and the log.
pub record Process (S F H : Type 0) : Type 0 where
  pub world : World S F H
  pub collector : EventCollector
  pub log : List LogLine

module _ {S F H : Type 0} where
  abbrev pub now : Process S F H → Time
  now p = p.world.clock

  -- log.Printf, at the line of a request.
  unfoldable pub print : LogLine → Process S F H → Process S F H
  print line p = record p { log = p.log ++ (line ∷ []) }

  -- A page that needs the response writer alone.
  abbrev pub page : Exec (List Call) (Unit {0}) → Exec (Process S F H × List Call) (Unit {0})
  page m (p, calls) = let (r, calls') = m calls in (r, (p, calls'))

  -- A handler of the API.
  abbrev pub api_call :
      Exec (Serving S F H) (Unit {0}) → Exec (Process S F H × List Call) (Unit {0})
  api_call m (p, calls) =
      let (r, s) = m (record { world = p.world; calls = calls }) in
      (r, (record p { world = s.world }, s.calls))

module _ (g : ErrGo) {S F H : Type 0} (deps : Dependencies S F H) (encode : Object → Outcome String)
    (marshal_item : (tag : String) → Time → (message : String) → Outcome String)
    (encode_item : Outcome String → Exec (List Call) (Unit {0})) (config : Config)
    (muxes : Muxes) where
  -- The router of NewUserAPIHandler.
  unfoldable pub serve_route : Option Route → HttpHandler (Process S F H)
  serve_route (some route) req (p, calls) =
      api_call (serve g deps encode marshal_item encode_item config p.collector route req.request)
        (p, calls)
  serve_route none req (p, calls) = page (muxes.not_found req) (p, calls)

  -- The handler at a destination of the mux that main makes.
  unfoldable pub serve_at : Destination → HttpHandler (Process S F H)
  serve_at welcome req = page (serve_welcome encode)
  serve_at api req = serve_route (muxes.route_of routes req.method req.path) req
  serve_at redirected req = page (muxes.redirect req)
  serve_at nowhere req = page (muxes.not_found req)

  unfoldable pub serve_mux : HttpHandler (Process S F H)
  unfolding destination
  serve_mux req = serve_at (destination muxes.clean_path req.method req.path) req
