-- ===== src/Api/Answers.antt =====
-- The answers of middlewares/v1/web.go and http/writer.go as pages: a status, and what is written.
use userd.Common.{
  ℕ, String, ◌≡◌, refl, ◌⊎◌, inl, inr, List, [], ◌∷◌, Bool, true, false, arith, any_of,
  if◌then◌else◌,
}
use userd.Errors.{
  ErrGo, Error, known, foreign, Sentinel, text, err_is, is_service_error, is_not_found_error,
  is_email_already_taken_error, is_login_name_already_taken_error,
  is_user_email_must_be_verified_error, user_not_found, invalid_user_object,
}
use userd.Errors.Laws.{is_public}
use userd.Exec.{Outcome, ok, Exec, if_rule}
use userd.Api.Writer.{
  Call, add_header, set_header, write_header, write, Value, Object, write_json_response,
  write_json_error_page, write_bad_request, write_not_found, call,
}
use userd.Api.Errors.{
  mask_error, handler_tests, answer_cause, handle_processing_error, write_processing_error,
}

-- The codes that were written, in order.
abbrev pub statuses : List Call → List ℕ
statuses [] = []
statuses (write_header code ∷ calls) = code ∷ statuses calls
statuses (add_header _ _ ∷ calls) = statuses calls
statuses (set_header _ _ ∷ calls) = statuses calls
statuses (write _ ∷ calls) = statuses calls

-- The status of an answer to an error with this cause.
abbrev pub status_of : Error → ℕ
status_of (known user_not_found) = 404
status_of (known invalid_user_object) = 500
status_of (known _) = 400
status_of (foreign n) = 500

-- The status of an answer that is no success.
abbrev pub IsErrorStatus : ℕ → Type 0
IsErrorStatus code = (code ≡ 400) ⊎ ((code ≡ 404) ⊎ (code ≡ 500))

-- And its message: the text of a declared error that clients may see, and else a fixed one.
abbrev pub message_of : Error → String
unfolding text
message_of (known user_not_found) = "Resource not found."
message_of (known invalid_user_object) = "An Internal Error occured. Please try again later."
message_of (known s) = text s
message_of (foreign n) = "An Internal Error occured. Please try again later."

module _ (encode : Object → Outcome String)
    (encodes : (o : Object) → (line : String) × (encode o ≡ ok line)) where
  abbrev pub json_page : ℕ → Object → List Call
  json_page code o =
      write_header code
      ∷ add_header "content-Type" "application/json; charset=UTF8"
      ∷ write (encodes o).0
      ∷ []

  abbrev pub error_page : ℕ → String → List Call
  error_page code message = json_page code (("msg", Value.text message) ∷ [])

  -- One page, with the status of an error.
  abbrev pub IsErrorPage : Outcome (Unit {0}) × List Call → Type 0
  IsErrorPage r =
      (code : ℕ) × (message : String) × IsErrorStatus code × (r ≡ (ok tt, error_page code message))

  pub write_json_response_lem :
      (code : ℕ) (o : Object) → write_json_response encode code o [] ≡ (ok tt, json_page code o)
  unfolding write_json_response call
  write_json_response_lem code o = rw ((encodes o).1)

  pub write_json_error_page_lem :
      (code : ℕ) (message : String)
      → write_json_error_page encode code message [] ≡ (ok tt, error_page code message)
  unfolding write_json_error_page
  write_json_error_page_lem code message = write_json_response_lem code _

  bad_request_page : (message : String) → IsErrorPage (write_bad_request encode (message ∷ []) [])
  unfolding write_bad_request
  bad_request_page message = (400, message, inl refl, write_json_error_page_lem 400 message)

  plain_bad_request_page : IsErrorPage (write_bad_request encode [] [])
  unfolding write_bad_request
  plain_bad_request_page = (400, _, inl refl, write_json_error_page_lem 400 _)

  not_found_page : IsErrorPage (write_not_found encode [])
  unfolding write_not_found
  not_found_page = (404, _, inr (inl refl), write_json_error_page_lem 404 _)

  page_of_if :
      (b : Bool) (m n : Exec (List Call) (Unit {0}))
      → IsErrorPage (m [])
      → IsErrorPage (n [])
      → IsErrorPage ((if b then m else n) [])
  page_of_if b m n p q = if_rule IsErrorPage b m n [] (λ _. p) (λ _. q)

  module _ (g : ErrGo) where
    processing-IsErrorPage : (e : Error) → IsErrorPage (write_processing_error g encode e [])
    unfolding write_processing_error
    processing-IsErrorPage e = (500, _, inr (inr refl), write_json_error_page_lem 500 _)

    -- Whatever the error is, it is answered by one page.
    pub handle_processing_error-IsErrorPage :
        (e : Error) → IsErrorPage (handle_processing_error g encode e [])
    unfolding handle_processing_error answer_cause
    handle_processing_error-IsErrorPage e =
        search
          (
            page_of_if, not_found_page, bad_request_page, plain_bad_request_page,
            processing-IsErrorPage,
          )
          depth 7

    -- A declared error that is its own cause.
    known_page :
        (s : Sentinel)
        → answer_cause g encode (known s) []
          ≡ (ok tt, error_page (status_of (known s)) (message_of (known s)))
    unfolding answer_cause is_not_found_error is_email_already_taken_error
        is_login_name_already_taken_error is_user_email_must_be_verified_error is_service_error
        write_not_found write_bad_request write_processing_error text
    known_page user_not_found = write_json_error_page_lem 404 "Resource not found."
    known_page s = simp (g.cause-known, g.message-known, write_json_error_page_lem)

    -- Any other error.
    hidden_page :
        (e : Error)
        → ((s : Sentinel) → err_is e s ≡ false)
        → g.cause e ≡ e
        → answer_cause g encode e []
          ≡ (ok tt, error_page 500 "An Internal Error occured. Please try again later.")
    unfolding answer_cause is_not_found_error is_email_already_taken_error
        is_login_name_already_taken_error is_user_email_must_be_verified_error is_service_error
        write_processing_error
    hidden_page e h own = simp (own, h) (write_json_error_page_lem 500 _)

    -- The cause of an error, if the tests let it through, or a new error.
    shown : (s : Sentinel) → any_of (handler_tests g) (known s) ≡ is_public s
    unfolding handler_tests is_not_found_error is_email_already_taken_error
        is_login_name_already_taken_error is_user_email_must_be_verified_error is_service_error
    shown s = ground (arith, g.cause-known s)

    masked_cause :
        (e c : Error)
        → g.cause e ≡ c
        → g.cause (g.mask (handler_tests g) e)
          ≡ (if any_of (handler_tests g) c then c else g.mask (handler_tests g) e)
    masked_cause e c at = rw at at (g.cause-mask (handler_tests g) e)

    -- An error whose cause the tests hide.
    hides :
        (e c : Error)
        → g.cause e ≡ c
        → any_of (handler_tests g) c ≡ false
        → handle_processing_error g encode (mask_error g e) []
          ≡ (ok tt, error_page 500 "An Internal Error occured. Please try again later.")
    unfolding handle_processing_error mask_error
    hides e c at hidden =
        let own : g.cause (g.mask (handler_tests g) e) ≡ g.mask (handler_tests g) e =
          rw hidden at (masked_cause e c at) in
        rw own (hidden_page (g.mask (handler_tests g) e) (g.mask-fresh (handler_tests g) e) own)

    -- And one whose cause they show.
    shows :
        (e : Error) (s : Sentinel)
        → g.cause e ≡ known s
        → is_public s ≡ true
        → handle_processing_error g encode (mask_error g e) []
          ≡ (ok tt, error_page (status_of (known s)) (message_of (known s)))
    unfolding handle_processing_error mask_error
    shows e s at public = rw (masked_cause e (known s) at, shown s, public) (known_page s)

    foreign_hidden :
        (n : ℕ) → g.cause (foreign n) ≡ foreign n → any_of (handler_tests g) (foreign n) ≡ false
    unfolding handler_tests is_not_found_error is_email_already_taken_error
        is_login_name_already_taken_error is_user_email_must_be_verified_error is_service_error
    foreign_hidden n own = simp own

    pub masked_page :
        (e c : Error)
        → g.cause e ≡ c
        → g.cause c ≡ c
        → handle_processing_error g encode (mask_error g e) []
          ≡ (ok tt, error_page (status_of c) (message_of c))
    unfolding message_of
    masked_page e (known invalid_user_object) at own =
        hides e (known invalid_user_object) at (shown invalid_user_object)
    masked_page e (known s) at own = shows e s at refl
    masked_page e (foreign n) at own = hides e (foreign n) at (foreign_hidden n own)

    foreign_is : (n : ℕ) (s : Sentinel) → err_is (foreign n) s ≡ false
    foreign_is n s = refl

    pub unmasked_page :
        (e c : Error)
        → g.cause e ≡ c
        → g.cause c ≡ c
        → handle_processing_error g encode e [] ≡ (ok tt, error_page (status_of c) (message_of c))
    unfolding handle_processing_error message_of
    unmasked_page e (known s) at own = rw at (known_page s)
    unmasked_page e (foreign n) at own = rw at (hidden_page (foreign n) (foreign_is n) own)

    -- An error e of the service, whose cause c is its own cause, is answered by one page, with the
    -- handlers' mask and without: 404 where c is UserNotFound, 400 with the text of c where c is
    -- another declared error but InvalidUserObject, and else 500 with a text that tells nothing of it.
    pub handle_processing_error_lem :
        (e c : Error)
        → g.cause e ≡ c
        → g.cause c ≡ c
        → (handle_processing_error g encode (mask_error g e) []
            ≡ (ok tt, error_page (status_of c) (message_of c)))
          × (handle_processing_error g encode e []
              ≡ (ok tt, error_page (status_of c) (message_of c)))
    handle_processing_error_lem e c at own = (masked_page e c at own, unmasked_page e c at own)
