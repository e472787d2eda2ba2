-- ===== src/Api/Writer.antt =====
-- http/writer.go: how an answer is written. A response writer of net/http is what its caller sees: the
-- calls of its methods, in order, which a handler appends to.
use userd.Common.{ℕ, String, Bool, List, [], ◌∷◌, ◌++◌}
use userd.Exec.{Outcome, ok, Exec, attempt, abort, ◌>>◌}

-- A call of the response writer, or of the header map that it gives.
pub data Call : Type 0 where
  add_header set_header : (name value : String) → Call
  write_header : (code : ℕ) → Call
  write : (body : String) → Call

-- What a handler encodes.
pub data Value : Type 0 where
  text : String → Value
  flag : Bool → Value

abbrev pub Object : Type 0
Object = List (String × Value)

unfoldable pub call : Call → Exec (List Call) (Unit {0})
call c calls = (ok tt, calls ++ (c ∷ []))

-- `encode` is Encode of encoding/json on the response writer: the line that it writes, or its error,
-- which is one of encoding or one of writing, as where the client has gone.
module _ (encode : Object → Outcome String) where
  unfoldable pub write_json_response : ℕ → Object → Exec (List Call) (Unit {0})
  write_json_response code data_object = do
    call (write_header code)
    call (add_header "content-Type" "application/json; charset=UTF8")
    attempt (λ calls. (encode data_object, calls)) (λ line. call (write line)) (λ e. abort)

  unfoldable pub write_json_error_page : ℕ → String → Exec (List Call) (Unit {0})
  write_json_error_page code message = write_json_response code (("msg", text message) ∷ [])

  -- With the variadic messages as a list.
  unfoldable pub write_bad_request : List String → Exec (List Call) (Unit {0})
  write_bad_request [] = write_json_error_page 400 "Bad request."
  write_bad_request (msg ∷ []) = write_json_error_page 400 msg
  write_bad_request (msg ∷ _ ∷ _) = abort

  unfoldable pub write_not_found : Exec (List Call) (Unit {0})
  write_not_found = write_json_error_page 404 "Resource not found."

unfoldable pub write_no_content : Exec (List Call) (Unit {0})
write_no_content = call (write_header 204)
