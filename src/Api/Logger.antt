-- ===== src/Api/Logger.antt =====
-- http/request_logger.go: RequestLogger, and what a handler of net/http is for it.
use userd.Common.{ℕ, ◌-◌, String, ◌≡◌, refl, List, []}
use userd.User.{Time}
use userd.Exec.{Outcome, ok, err, panic, Exec, continue}
use userd.Api.Writer.{Call}
use userd.Api.Handlers.{Request}
use userd.Api.Answers.{statuses}
use userd.Api.Recorder.{
  new_recorder, record_calls, last_status, record_calls-response_writer, record_calls-status_code,
}

-- The `http.Request` of the logger and the muxes: the fields that they read, and the form.
pub record Arrival : Type 0 where
  pub method : String
  pub url : String
  pub path : String
  pub user_agent : String
  pub request : Request

-- The line that the logger prints.
pub record LogLine : Type 0 where
  pub method : String
  pub url : String
  pub user_agent : String
  pub status_code : ℕ
  pub taken : Time

-- An `http.Handler`, over the state W of the process and the calls of the response writer.
abbrev pub HttpHandler : Type 0 → Type 0
HttpHandler W = Arrival → Exec (W × List Call) (Unit {0})

-- `now` is time.Now, `print` log.Printf at the line, and `n` what the wrapped writer returns for a body.
module _ {W : Type 0} (now : W → Time) (print : LogLine → W → W) (n : String → ℕ) where
  -- The line about a request that came at a time, once it is served with a status.
  abbrev pub line_of : Arrival → (came : Time) → W → (status_code : ℕ) → LogLine
  line_of req came w status_code = record {
    method = req.method;
    url = req.url;
    user_agent = req.user_agent;
    status_code = status_code;
    taken = now w - came;
  }

  -- RequestLogger.ServeHTTP: `next` writes to a recorder, which passes the calls on.
  unfoldable pub serve_request_logger : (next : HttpHandler W) → HttpHandler W
  serve_request_logger next req (w, calls) =
      let (r, (w', made)) = next req (w, []) in
      let recorder = record_calls n made (new_recorder calls) in
      continue r (λ _ s. (ok tt, (print (line_of req (now w) w' recorder.status_code) s.0, s.1)))
        (w', recorder.response_writer)

  -- What a run of a handler becomes behind the logger: the same outcome and calls, and a line in the log
  -- if the handler returns.
  abbrev pub logged :
      Arrival
      → (came : Time) → Outcome (Unit {0}) × (W × List Call)
      → Outcome (Unit {0}) × (W × List Call)
  logged req came (ok _, (w, made)) =
      (ok tt, (print (line_of req came w (last_status 200 (statuses made))) w, made))
  logged req came (err e, s) = (err e, s)
  logged req came (panic, s) = (panic, s)

  -- The logger in front of a handler: the client sees the outcome and the calls of the handler, and the
  -- state is the one that the handler leaves, with one more line in the log, of the last status that the
  -- handler wrote, 200 where it wrote none; no line is printed where the handler panics.
  pub serve_request_logger_lem :
      (next : HttpHandler W) (req : Arrival) (w : W)
      → serve_request_logger next req (w, []) ≡ logged req (now w) (next req (w, []))
  unfolding serve_request_logger
  serve_request_logger_lem next req w = either (next req (w, []))
    where
      either :
          (ran : Outcome (Unit {0}) × (W × List Call))
          → continue ran.0
              (λ _ s. (
                ok tt,
                (
                  print
                      (line_of req
                        (now w)
                        ran.1.0
                        (record_calls n ran.1.1 (new_recorder [])).status_code)
                      s.0,
                  s.1,
                ),
              ))
              (ran.1.0, (record_calls n ran.1.1 (new_recorder [])).response_writer)
            ≡ logged req (now w) ran
      either (ok a, (w', made)) =
          rw
            (
              record_calls-status_code n made (new_recorder []),
              record_calls-response_writer n made (new_recorder []),
            )
            refl
      either (err e, (w', made)) = rw (record_calls-response_writer n made (new_recorder [])) refl
      either (panic, (w', made)) = rw (record_calls-response_writer n made (new_recorder [])) refl
