-- ===== src/Tests/Startup.antt =====
-- main.go and redis.go: the default flags, a server that asks for a password, and a process that logs.
use userd.Common.{
  ℕ, ◌*◌, ◌≤◌, String, ◌≡◌, ◌↔◌, ◌⊎◌, inl, inr, refl, ap, Bool, true, false, ◌==◌, List, [], ◌∷◌,
  map, arith, if◌then◌else◌,
}
use userd.Common.Int.{pos, ltb_ℤ, is_not_positive}
use userd.Errors.{foreign}
use userd.Exec.{Outcome, ok, err, panic}
use userd.Startup.{duration_of_minutes}
use userd.Startup.Bounds.{duration_of_minutes_lem}
use userd.Startup.{Assembly, Environment, default_flags, switches, assemble}
use userd.Startup.Choices.{IsStorage, AreStreams}
use userd.Startup.Accepted.{assemble-IsReady}
use userd.Part.{ready}
use userd.Api.Writer.{write_header, call}
use userd.Api.Logger.{Arrival, HttpHandler, serve_request_logger, serve_request_logger_lem}
use userd.Startup.Process.{
  Process, Muxes, now, print, serve_mux, destination, serve_at, serve_route,
}
use userd.Startup.Process.Routing.{Routed, serve_mux-Routed}
use userd.Startup.Server.{FlagSet, new_starter_from_flag_set, with_logger}
use userd.Hasher.{Bcrypt}
use userd.Errors.Instance.{errgo}
use userd.Storage.Local.{LocalState}
use userd.Api.Recorder.{record_calls, record_call}
use userd.Api.Routes.{routes, serve, route_at}
use userd.Tests.Api
use userd.Tests.Collector.{empty_collector}
use userd.Tests.World.{deps, start, config}
use userd.Startup.Redis.{Redigo, bare_address, dialer}
use userd.Startup.Redis.Laws.{IsConnecting, Dialed, with_protocol, dialer-Dialed}

duration_of_minutes_lem_example :
    (duration_of_minutes 120 ≡ pos (120 * 60_000_000_000)) ↔ (120 ≤ 153_722_867)
duration_of_minutes_lem_example = duration_of_minutes_lem 120 (omega arith)

-- A server that lets in who knows the password; a connection is one entry of the state.
abbrev shut : List (Unit {0}) → List (Unit {0})
shut [] = []
shut (c ∷ others) = others

abbrev server : Redigo (List (Unit {0})) (Unit {0})
server = record {
  dial = λ network address s. (ok tt, tt ∷ s);
  do_command =
      λ c command argument s. (if argument == "open sesame" then ok tt else err (foreign 1), s);
  close = λ c s. (ok tt, shut s);
}

answers : (b : Bool) → ¬ Path (Outcome (Unit {0})) (if b then ok tt else err (foreign 1)) panic
answers true e = cc
answers false e = cc

server-IsConnecting : IsConnecting server
server-IsConnecting = record {
  opened = λ s. s;
  dial-ok = λ network address s c e. refl;
  dial-err = λ network address s e h. cc;
  dial-returns = λ network address s e. cc;
  do_command-opened = λ c command argument s. refl;
  do_command-returns = λ c command argument s. answers (argument == "open sesame");
  close-opened = λ c others s e. ap shut e;
  close-returns = λ c s e. cc;
}

-- With a wrong password, the connection is closed.
refused : dialer server "tcp://db:6379" "guess" [] ≡ (err (foreign 1), [])
unfolding dialer bare_address
refused = refl

dialer-Dialed_example :
    Dialed server server-IsConnecting "db:6379" "guess" []
      (dialer server "tcp://db:6379" "guess" [])
dialer-Dialed_example =
    dialer-Dialed server server-IsConnecting "tcp://db:6379" "db:6379" "guess" []
      (with_protocol "db:6379")

-- A hash of one cost.
abbrev bcrypt : Bcrypt (Unit {0})
bcrypt = record {
  min_cost = pos 4;
  max_cost = pos 31;
  default_cost = pos 10;
  generate_from_password = λ password cost salt. (ok password, salt);
  compare_hash_and_password = λ h password. if h == password then ok tt else err (foreign 1);
  cost_of = λ h. ok (pos 10);
}

-- Nothing outside can be opened.
abbrev closed : Environment
closed = record {
  etcd_log_opened = err (foreign 1);
  event_log_opened = err (foreign 1);
  bus = err (foreign 1);
  most_items = 1_000_000;
}

abbrev no_comma : String → List String
no_comma text = text ∷ []

assemble-IsReady_example :
    ((assembly : Assembly) × (assemble bcrypt no_comma (default_flags (pos 10)) closed
        ≡ ready assembly))
    ↔ ((Path String "uuid" "uuid" ⊎ Path String "uuid" "seq")
        × ((ltb_ℤ (pos 31) (pos 10) ≡ false)
            × (IsStorage (default_flags (pos 10)) closed
                × (AreStreams (switches (default_flags (pos 10)) closed) ("none" ∷ [])
                    × ((is_not_positive (pos 1000) ≡ false)
                        × ((ltb_ℤ (pos 1_000_000) (pos 1000) ≡ false)
                            × (is_not_positive (duration_of_minutes (2 * 60)) ≡ false)))))))
assemble-IsReady_example =
    assemble-IsReady bcrypt no_comma (default_flags (pos 10)) closed refl refl

-- With the default flags, main starts.
default_flags-start :
    (assembly : Assembly) × (assemble bcrypt no_comma (default_flags (pos 10)) closed
      ≡ ready assembly)
unfolding duration_of_minutes
default_flags-start =
    assemble-IsReady_example.1
      (inl refl, (refl, (inr (inr refl), ((inr (inr (inr refl)), tt), (refl, (refl, refl))))))

abbrev creation : Arrival
creation = record {
  method = "POST";
  url = "/v1/user/create";
  path = "/v1/user/create";
  user_agent = "test";
  request = Api.ann_request;
}

abbrev three : String → ℕ
three body = 3

-- A handler that writes a status twice; the log has the last.
abbrev twice : HttpHandler (Process LocalState ℕ ℕ)
twice req (p, calls) = (ok tt, (p, write_header 201 ∷ write_header 500 ∷ []))

abbrev process : Process LocalState ℕ ℕ
process = record { world = start; collector = empty_collector; log = [] }

serve_request_logger_lem_example :
    serve_request_logger now print three twice creation (process, []) ≡ (
      ok tt,
      (
        record process {
          log =
              record {
                method = "POST";
                url = "/v1/user/create";
                user_agent = "test";
                status_code = 500;
                taken = 0;
              }
              ∷ [];
        },
        write_header 201 ∷ write_header 500 ∷ [],
      ),
    )
unfolding print
serve_request_logger_lem_example = serve_request_logger_lem now print three twice creation process

-- The flags --log-requests and --https-enable.
abbrev given : FlagSet
given = record { string_var = λ name default. default; bool_var = λ name default. true }

-- net/http and gorilla/mux, at clean paths.
abbrev muxes : Muxes
muxes = record {
  clean_path = λ path. path;
  redirect = λ req. call (write_header 301);
  not_found = λ req. call (write_header 404);
  route_of = λ table method path. route_at method path table;
}

abbrev served : Process LocalState ℕ ℕ
served =
    (with_logger now print three (new_starter_from_flag_set given)
      (serve_mux errgo deps Api.encode Api.marshal_item Api.encode_item config muxes) creation
      (process, [])).1.0

-- The mux sends the creation to its handler, and the logger prints its status.
served_log : map (λ line. line.status_code) served.log ≡ 201 ∷ []
unfolding Api.service with_logger serve_request_logger record_calls record_call
    new_starter_from_flag_set serve_mux destination serve_at serve_route serve routes print
served_log = refl

serve_mux-Routed_example :
    Routed errgo deps Api.encode Api.marshal_item Api.encode_item config muxes creation process (
      serve_mux errgo deps Api.encode Api.marshal_item Api.encode_item config muxes creation
        (process, []))
serve_mux-Routed_example =
    serve_mux-Routed errgo deps Api.encode Api.marshal_item Api.encode_item config muxes creation
      process refl (λ method path. refl)
