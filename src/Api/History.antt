-- ===== src/Api/History.antt =====
-- The states that a server reaches: requests of middlewares/v1/web.go on any route, one after the
-- other, and between them the clock and the goroutines of the events go on.
use userd.Common.{String, ◌≡◌, refl, List}
use userd.Errors.{ErrGo}
use userd.User.{Time, User}
use userd.Exec.{Outcome, ok, err, panic, Exec, handle, pure}
use userd.Storage.Directory.{IsDirectory}
use userd.Service.Backends.{Config, Dependencies, World, Entry, Task}
use userd.Service.Collector.{EventCollector, write_json_stream_once}
use userd.Api.Writer.{Call, Object, call}
use userd.Api.Atomic.{arriving}
use userd.Api.Handlers.{Request, Serving, serve_feed, on_writer}
use userd.Api.Routes.{Route, feed_writer, serve}
use userd.Api.Requests.{serve-Answered}

module _ (g : ErrGo) {S F H : Type 0} (deps : Dependencies S F H)
    (dir : IsDirectory g deps.user_storage)
    (marshal_item : (tag : String) → Time → (message : String) → Outcome String)
    (encode_item : Outcome String → Exec (List Call) (Unit {0})) (config : Config) where
  -- What one request leaves, whatever Encode onto its response writer makes of an object.
  abbrev pub after :
      (encode : Object → Outcome String)
      → EventCollector
      → Route
      → Request
      → World S F H
      → World S F H
  after encode esc route req w =
      (serve g deps encode marshal_item encode_item config esc route req
        (arriving g deps dir w)).1.world

  pub data Reached (w₀ : World S F H) : World S F H → Type 0 where
    initially : Reached w₀ w₀
    request :
        {w : World S F H} (encode : Object → Outcome String) (esc : EventCollector) (route : Route)
        (req : Request)
        → Reached w₀ w
        → Reached w₀ (after encode esc route req w)
    meanwhile :
        {w : World S F H} (now : Time) (tasks : List Task)
        → Reached w₀ w
        → Reached w₀ (record w { clock = now; tasks = tasks })

  -- The feed reads the collector alone.
  pub feed_keeps_world :
      (encode : Object → Outcome String) (esc : EventCollector) (req : Request) (w : World S F H)
      → after encode esc feed_writer req w ≡ w
  unfolding serve serve_feed on_writer call
  feed_keeps_world encode esc req w =
      either (write_json_stream_once marshal_item encode_item esc _).0 _
    where
      either :
          (r : Outcome (Unit {0})) (calls : List Call)
          → (handle {S = Serving S F H} r
              (λ _. pure tt)
              (λ _. pure tt)
              (record { world = w; calls = calls })).1.world
            ≡ w
      either (ok a) calls = refl
      either (err e) calls = refl
      either panic calls = refl

  module _ (storable : (u : User) → dir.IsStorable u)
      (marshals : (e : Entry) → (bytes : String) × (deps.marshal_entry e ≡ ok bytes)) where
    after-IsValid :
        (encode : Object → Outcome String) (esc : EventCollector) (route : Route) (req : Request)
        (w : World S F H)
        → dir.IsValid w.store
        → dir.IsValid (after encode esc route req w).store
    after-IsValid encode esc feed_writer req w valid = rw (feed_keeps_world encode esc req w) valid
    after-IsValid encode esc route req w valid =
        (serve-Answered g deps dir storable marshals encode marshal_item encode_item config esc
          route req w (λ e. cc) valid).1

    pub Reached-IsValid :
        {w₀ w : World S F H} → dir.IsValid w₀.store → Reached w₀ w → dir.IsValid w.store
    Reached-IsValid valid initially = valid
    Reached-IsValid valid (request {w} encode esc route req before) =
        after-IsValid encode esc route req w (Reached-IsValid valid before)
    Reached-IsValid valid (meanwhile now tasks before) = Reached-IsValid valid before
