-- ===== src/Api/Recorder.antt =====
-- http/request_logger.go: the response writer that the request logger puts before that of net/http,
-- to log the status and the time that a request took.
use Prim.Native.Nat.{◌%◌, ◌^◌}
use userd.Common.{ℕ, ◌+◌, ◌<◌, String, ◌≡◌, refl, sym, ap, ◌∙◌, List, [], ◌∷◌, ◌++◌, arith}
use mathlib.Core.List.{append_assoc, append-nil}
use userd.Api.Writer.{Call, add_header, set_header, write_header, write}
use userd.Api.Answers.{statuses}

-- `ResponseWriter` is the wrapped writer, by the calls that reached it. An `int64` is its 64 bits.
pub record ResponseRecorder : Type 0 where
  pub response_writer : List Call
  pub status_code : ℕ
  pub bytes_written : ℕ

-- The recorder that ServeHTTP makes.
abbrev pub new_recorder : List Call → ResponseRecorder
new_recorder calls = record { response_writer = calls; status_code = 200; bytes_written = 0 }

-- The last status, or the given one where there is none.
abbrev pub last_status : ℕ → List ℕ → ℕ
last_status code [] = code
last_status code (next ∷ codes) = last_status next codes

-- `n` is what the wrapped writer returns for a body: how many bytes it took.
module _ (n : String → ℕ) where
  -- Write and WriteHeader; the header map is that of the wrapped writer.
  unfoldable pub record_call : Call → ResponseRecorder → ResponseRecorder
  record_call (write body) e = record e {
    response_writer = e.response_writer ++ (write body ∷ []);
    bytes_written = (e.bytes_written + n body) % 2 ^ 64;
  }
  record_call (write_header code) e = record e {
    response_writer = e.response_writer ++ (write_header code ∷ []);
    status_code = code;
  }
  record_call (add_header name value) e = record e {
    response_writer = e.response_writer ++ (add_header name value ∷ []);
  }
  record_call (set_header name value) e = record e {
    response_writer = e.response_writer ++ (set_header name value ∷ []);
  }

  -- The calls of a handler that writes to the recorder, in order.
  unfoldable pub record_calls : List Call → ResponseRecorder → ResponseRecorder
  record_calls [] e = e
  record_calls (c ∷ calls) e = record_calls calls (record_call c e)

  -- The bytes of all bodies.
  abbrev pub body_bytes : List Call → ℕ
  body_bytes [] = 0
  body_bytes (write body ∷ calls) = n body + body_bytes calls
  body_bytes (write_header _ ∷ calls) = body_bytes calls
  body_bytes (add_header _ _ ∷ calls) = body_bytes calls
  body_bytes (set_header _ _ ∷ calls) = body_bytes calls

  sends :
      (c : Call) (e : ResponseRecorder)
      → (record_call c e).response_writer ≡ e.response_writer ++ (c ∷ [])
  unfolding record_call
  sends (write body) e = refl
  sends (write_header code) e = refl
  sends (add_header a b) e = refl
  sends (set_header a b) e = refl

  -- The wrapped writer has been called as the recorder has.
  pub record_calls-response_writer :
      (calls : List Call) (e : ResponseRecorder)
      → (record_calls calls e).response_writer ≡ e.response_writer ++ calls
  unfolding record_calls record_call
  record_calls-response_writer [] e = sym (append-nil e.response_writer)
  record_calls-response_writer (c ∷ calls) e =
      record_calls-response_writer calls (record_call c e)
      ∙ ap (λ (sent : List Call). sent ++ calls) (sends c e)
      ∙ append_assoc e.response_writer (c ∷ []) calls

  -- The status that a recorder holds.
  pub record_calls-status_code :
      (calls : List Call) (e : ResponseRecorder)
      → (record_calls calls e).status_code ≡ last_status e.status_code (statuses calls)
  unfolding record_calls record_call
  record_calls-status_code [] e = refl
  record_calls-status_code (write body ∷ calls) e = record_calls-status_code calls _
  record_calls-status_code (write_header code ∷ calls) e = record_calls-status_code calls _
  record_calls-status_code (add_header a b ∷ calls) e = record_calls-status_code calls _
  record_calls-status_code (set_header a b ∷ calls) e = record_calls-status_code calls _

  bytes :
      (calls : List Call) (e : ResponseRecorder)
      → e.bytes_written < 2 ^ 64
      → (record_calls calls e).bytes_written ≡ (e.bytes_written + body_bytes calls) % 2 ^ 64
  unfolding record_calls record_call
  bytes [] e h = omega arith
  bytes (write body ∷ calls) e h = bytes calls _ (omega arith) ∙ omega arith
  bytes (write_header code ∷ calls) e h = bytes calls _ h
  bytes (add_header a b ∷ calls) e h = bytes calls _ h
  bytes (set_header a b ∷ calls) e h = bytes calls _ h

  -- The recorder passes every call on, in order, and holds at the end the last status that the
  -- handler wrote, 200 where it wrote none, and the number of bytes of all bodies, in 64 bits.
  record_calls_lem :
      (calls : List Call)
      → ((record_calls calls (new_recorder [])).response_writer ≡ calls)
        × ((record_calls calls (new_recorder [])).status_code ≡ last_status 200 (statuses calls))
        × ((record_calls calls (new_recorder [])).bytes_written ≡ body_bytes calls % 2 ^ 64)
  record_calls_lem calls = (
    record_calls-response_writer calls (new_recorder []),
    record_calls-status_code calls (new_recorder []),
    bytes calls (new_recorder []) (omega arith) ∙ omega arith,
  )
