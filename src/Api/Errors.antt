-- ===== src/Api/Errors.antt =====
-- middlewares/v1/web.go: the mask of the handlers, and the answer to an error of the service.
use userd.Common.{String, Bool, ◌||◌, List, [], ◌∷◌, if◌then◌else◌}
use userd.Errors.{
  Error, ErrGo, err_is, is_service_error, is_not_found_error, is_email_already_taken_error,
  is_login_name_already_taken_error, is_user_email_must_be_verified_error, invalid_credentials,
}
use userd.Exec.{Outcome, Exec}
use userd.Api.Writer.{Call, Object, write_json_error_page, write_bad_request, write_not_found}

module _ (g : ErrGo) where
  unfoldable pub handler_tests : List (Error → Bool)
  handler_tests =
      is_service_error g
      ∷ is_not_found_error
      ∷ is_email_already_taken_error
      ∷ is_login_name_already_taken_error
      ∷ is_user_email_must_be_verified_error
      ∷ []

  -- MaskError
  unfoldable pub mask_error : Error → Error
  mask_error err = g.mask handler_tests err

module _ (g : ErrGo) (encode : Object → Outcome String) where
  unfoldable pub write_processing_error : Error → Exec (List Call) (Unit {0})
  write_processing_error err =
      write_json_error_page encode 500 "An Internal Error occured. Please try again later."

  -- What is done with the cause of the error.
  unfoldable pub answer_cause : Error → Exec (List Call) (Unit {0})
  answer_cause err =
      if is_not_found_error err
      then write_not_found encode
      else if is_email_already_taken_error err
          || is_login_name_already_taken_error err
          || is_service_error g err
      then write_bad_request encode (g.message err ∷ [])
      else if err_is err invalid_credentials
      then write_bad_request encode []
      else if is_user_email_must_be_verified_error err
      then write_bad_request encode (g.message err ∷ [])
      else write_processing_error err

  unfoldable pub handle_processing_error : Error → Exec (List Call) (Unit {0})
  handle_processing_error err = answer_cause (g.cause err)
