-- ===== src/Client/Network.antt =====
-- How the requests of the client (client/api.go) reach the handlers of middlewares/v1/web.go through
-- net/http and gorilla/mux, which are parameters.
use Prim.Native.String.{◌++◌}
use userd.Common.{Bool, false, ℕ, String, ◌≡◌, ◌||◌, ◌==◌, List, [], ◌∷◌, none, some, if◌then◌else◌}
use userd.Errors.{Error, ErrGo}
use userd.User.{Time}
use userd.Exec.{Outcome, ok, err, panic, Exec}
use userd.Service.Backends.{Config, Dependencies, World}
use userd.Service.Collector.{EventCollector}
use userd.Api.Writer
use userd.Api.Writer.{Object, write}
use userd.Api.Answers.{statuses}
use userd.Api.Handlers.{Request, Serving}
use userd.Api.Routes.{route_at, Route, routes, serve}
use userd.Client.{Values}
use userd.Client.Calls.{Api}

-- url.Values.Get
abbrev pub value_of : (name : String) → Values → String
value_of name [] = ""
value_of name ((key, value) ∷ values) = if key == name then value else value_of name values

abbrev pub has : (name : String) → Values → Bool
has name [] = false
has name ((key, value) ∷ values) = key == name || has name values

-- The body that the calls of a response writer write.
abbrev pub written : List Writer.Call → String
written [] = ""
written (write body ∷ calls) = body ++ written calls
written (_ ∷ calls) = written calls

module _ (g : ErrGo) {S F H : Type 0} (deps : Dependencies S F H) (encode : Object → Outcome String)
    (encodes : (o : Object) → (line : String) × (encode o ≡ ok line))
    (marshal_item : (tag : String) → Time → (message : String) → Outcome String)
    (encode_item : Outcome String → Exec (List Writer.Call) (Unit {0})) (config : Config)
    (esc : EventCollector) (api : Api (World S F H)) where
  -- What the handler of a route leaves.
  abbrev pub served : Route → Request → World S F H → Outcome (Unit {0}) × Serving S F H
  served route req w =
      serve g deps encode marshal_item encode_item config esc route req
        (record { world = w; calls = [] })

  -- What the client relies on in net/http and in gorilla/mux: a form that is posted under the endpoint
  -- reaches the route with that path, as a request that has the form's values, and a query for a user
  -- reaches /v1/user/get, as a request that has the id; the response has the
  -- one status that the handler writes and the body that it writes; and where the handler panics,
  -- the request fails.
  pub record IsServed : Type 0 where
    -- A request with a form, and one with a query.
    pub request_of : Values → Request
    pub query_request : Values → Request
    pub post_form_value :
        (name : String) (values : Values)
        → (request_of values).post_form_value name ≡ value_of name values
    pub form_value :
        (name : String) (values : Values)
        → (request_of values).form_value name ≡ value_of name values
    pub form_missing :
        (name : String) (values : Values)
        → has name values ≡ false
        → (request_of values).form name ≡ none
    pub query_value :
        (name : String) (values : Values)
        → (query_request values).form_value name ≡ value_of name values
    pub answered :
        (action : String) (route : Route) (values : Values) (w : World S F H) (code : ℕ)
        → route_at "POST" ("/v1/user/" ++ action) routes ≡ some route
        → (served route (request_of values) w).0 ≡ ok tt
        → statuses (served route (request_of values) w).1.calls ≡ code ∷ []
        → api.http.post_form (api.endpoint ++ action) values w ≡ (
          ok (record {
            status_code = code;
            read_all = ok (written (served route (request_of values) w).1.calls);
          }),
          (served route (request_of values) w).1.world,
        )
    pub dropped :
        (action : String) (route : Route) (values : Values) (w : World S F H)
        → route_at "POST" ("/v1/user/" ++ action) routes ≡ some route
        → (served route (request_of values) w).0 ≡ panic
        → (e : Error) × (api.http.post_form (api.endpoint ++ action) values w
            ≡ (err e, (served route (request_of values) w).1.world))
    pub got :
        (id : String) (w : World S F H) (code : ℕ)
        → (served Route.get_user (query_request (("id", id) ∷ [])) w).0 ≡ ok tt
        → statuses (served Route.get_user (query_request (("id", id) ∷ [])) w).1.calls ≡ code ∷ []
        → api.http.get (((api.endpoint ++ "get") ++ "?") ++ api.http.encode (("id", id) ∷ [])) w ≡ (
          ok (record {
            status_code = code;
            read_all =
                ok (written (served Route.get_user (query_request (("id", id) ∷ [])) w).1.calls);
          }),
          (served Route.get_user (query_request (("id", id) ∷ [])) w).1.world,
        )
