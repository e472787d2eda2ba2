-- ===== src/Api/Welcome.antt =====
-- middlewares/welcome.go: the page at every path that is not the API's.
use userd.Common.{String, [], ◌∷◌, List}
use userd.Exec.{Outcome, Exec}
use userd.Api.Writer.{Call, Object, Value, write_json_response}

unfoldable pub serve_welcome : (encode : Object → Outcome String) → Exec (List Call) (Unit {0})
serve_welcome encode =
    write_json_response encode 200 (("message", Value.text "Welcome! This is userd.") ∷ [])
