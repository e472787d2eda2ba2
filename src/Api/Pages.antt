-- ===== src/Api/Pages.antt =====
-- What http/writer.go leaves of an answer, also where its body cannot be encoded or written, so that
-- WriteJSONResponse panics behind the status.
use userd.Common.{ℕ, String, ◌≡◌, ◌≢◌, refl, inl, inr, List, [], ◌∷◌, Bool, if◌then◌else◌}
use userd.Errors.{ErrGo, Error}
use userd.Exec.{Outcome, ok, panic, Exec, if_rule, attempt_rule}
use userd.Api.Writer.{
  Call, Object, write_json_response, write_json_error_page, write_bad_request, write_not_found,
  call,
}
use userd.Api.Errors.{answer_cause, handle_processing_error, write_processing_error}
use userd.Api.Answers.{statuses, IsErrorStatus}

module _ (encode : Object → Outcome String) where
  -- An answer of one status: written whole, or cut off by a panic, where the encoder fails.
  pub data IsPage (code : ℕ) (r : Outcome (Unit {0}) × List Call) : Type 0 where
    whole : r.0 ≡ ok tt → statuses r.1 ≡ code ∷ [] → IsPage code r
    cut :
        (o : Object)
        → ((line : String) → encode o ≢ ok line)
        → r.0 ≡ panic
        → statuses r.1 ≡ code ∷ []
        → IsPage code r

  pub write_json_response-IsPage :
      (code : ℕ) (o : Object) → IsPage code (write_json_response encode code o [])
  unfolding write_json_response call
  write_json_response-IsPage code o =
      attempt_rule (IsPage code) (λ calls. (encode o, calls)) _ _ _ (λ line e. whole refl refl)
        (λ e at. cut o (λ line h. cc) refl refl) (λ at. cut o (λ line h. cc) refl refl)

  -- One page, with the status of an error.
  abbrev pub IsErrorAnswer : Outcome (Unit {0}) × List Call → Type 0
  IsErrorAnswer r = (code : ℕ) × IsErrorStatus code × IsPage code r

  write_json_error_page-IsPage :
      (code : ℕ) (message : String) → IsPage code (write_json_error_page encode code message [])
  unfolding write_json_error_page
  write_json_error_page-IsPage code message = write_json_response-IsPage code _

  pub bad_request_page :
      (message : String) → IsErrorAnswer (write_bad_request encode (message ∷ []) [])
  unfolding write_bad_request
  bad_request_page message = (400, inl refl, write_json_error_page-IsPage 400 message)

  pub plain_bad_request_page : IsErrorAnswer (write_bad_request encode [] [])
  unfolding write_bad_request
  plain_bad_request_page = (400, inl refl, write_json_error_page-IsPage 400 _)

  not_found_page : IsErrorAnswer (write_not_found encode [])
  unfolding write_not_found
  not_found_page = (404, inr (inl refl), write_json_error_page-IsPage 404 _)

  page_of_if :
      (b : Bool) (m n : Exec (List Call) (Unit {0}))
      → IsErrorAnswer (m [])
      → IsErrorAnswer (n [])
      → IsErrorAnswer ((if b then m else n) [])
  page_of_if b m n p q = if_rule IsErrorAnswer b m n [] (λ _. p) (λ _. q)

  module _ (g : ErrGo) where
    processing-IsErrorAnswer : (e : Error) → IsErrorAnswer (write_processing_error g encode e [])
    unfolding write_processing_error
    processing-IsErrorAnswer e = (500, inr (inr refl), write_json_error_page-IsPage 500 _)

    -- Whatever the error is, it is answered by one page.
    pub handle_processing_error-IsErrorAnswer :
        (e : Error) → IsErrorAnswer (handle_processing_error g encode e [])
    unfolding handle_processing_error answer_cause
    handle_processing_error-IsErrorAnswer e =
        search
          (
            page_of_if, not_found_page, bad_request_page, plain_bad_request_page,
            processing-IsErrorAnswer,
          )
          depth 7
