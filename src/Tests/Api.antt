-- ===== src/Tests/Api.antt =====
-- Requests at the HTTP interface, over the in-memory storage.
use userd.Common.{String, false, ◌≡◌, refl, List, [], ◌∷◌, none, ◌==◌, if◌then◌else◌}
use userd.Errors.{Error, known, foreign, email_already_taken}
use userd.Errors.Instance.{errgo}
use userd.User.{Time}
use userd.Storage.Interface.{value}
use userd.Exec.{Outcome, ok, Exec, pure}
use userd.Storage.KeyValue.{
  check_taken_by_other_user, decode, no_lock_lookup, remove_old, put_token, replace, write,
  check_token, save_valid, save, get, found_user, find_in, find_by_login_name, find_by_email,
  find_by_reset_password_token, user_storage, new_key_value_storage,
}
use userd.Storage.Local.{
  index_put, index_remove, index_lookup, index_at, driver_set, driver_lookup, local_driver,
  new_index,
}
use userd.Service.Backends.{on_store, on_salt, on_ids, now, spawn}
use userd.Service.Users.{create_user, log_event, get_user}
use userd.Api.Writer.{Call, Object, text, flag, call}
use userd.Api.Errors.{mask_error, handle_processing_error}
use userd.Api.Answers.{json_page, error_page, message_of, handle_processing_error_lem}
use userd.Api.Atomic.{Answered, arriving}
use userd.Api.Handlers.{Request, on_service, on_writer, answer, serve_create_user, serve_get_user}
use userd.Api.Routes.{Route, serve}
use userd.Api.Requests.{serve-Answered}
use userd.Api.Journey.{created_page, serve_get_user-serve_create_user}
use userd.Tests.Codec
use userd.Tests.Collector.{empty_collector}
use userd.Tests.World.{deps, directory, storable, marshals, start, start-IsValid, config, strokes}

-- An encoder that writes the first field's name.
abbrev pub encode : Object → Outcome String
encode [] = ok "{}"
encode ((name, value) ∷ fields) = ok name

pub encodes : (o : Object) → (line : String) × (encode o ≡ ok line)
encodes [] = ("{}", refl)
encodes ((name, value) ∷ fields) = (name, refl)

abbrev pub marshal_item : (tag : String) → Time → (message : String) → Outcome String
marshal_item tag t message = ok message

abbrev pub encode_item : Outcome String → Exec (List Call) (Unit {0})
encode_item r = pure tt

abbrev ann_form : String → String
ann_form field =
    if field == "profile_name"
    then "Ann"
    else if field == "email"
    then "ann@x"
    else if field == "login_name"
    then "ann"
    else if field == "login_password"
    then "secret"
    else if field == "id"
    then "u"
    else ""

abbrev pub ann_request : Request
ann_request = record { form_value = ann_form; post_form_value = ann_form; form = λ field. none }

unfoldable pub service : Unit {0}
unfolding save save_valid check_token check_taken_by_other_user write replace put_token remove_old
    no_lock_lookup decode get found_user find_in find_by_login_name find_by_email
    find_by_reset_password_token user_storage new_key_value_storage local_driver new_index index_at
    index_put index_remove index_lookup driver_set driver_lookup Codec.encode Codec.decode
    Codec.read_text on_store on_salt on_ids now spawn create_user log_event get_user strokes
    serve_create_user answer on_service on_writer call
service = tt

creation_answered :
    (serve_create_user errgo deps encode ann_request (arriving errgo deps directory start)).1.calls
    ≡ created_page "u"
unfolding service
creation_answered = refl

-- Ann is created, and then read.
serve_get_user-serve_create_user_example :
    (serve_get_user errgo deps encode ann_request (
      arriving errgo deps directory
        (serve_create_user errgo deps encode ann_request
          (arriving errgo deps directory start)).1.world)).1.calls
    ≡ json_page encode encodes 200 (
        ("profile_name", text "Ann")
        ∷ ("email", text "ann@x")
        ∷ ("login_name", text "ann")
        ∷ ("email_verified", flag false)
        ∷ [])
serve_get_user-serve_create_user_example =
    serve_get_user-serve_create_user errgo deps directory storable marshals encode encodes
      ann_request ann_request start "u" start-IsValid creation_answered refl

serve-Answered_example : Answered errgo deps directory encode 201 start (
    serve errgo deps encode marshal_item encode_item config empty_collector Route.create_user
      ann_request
      (arriving errgo deps directory start))
serve-Answered_example =
    serve-Answered errgo deps directory storable marshals encode marshal_item encode_item config
      empty_collector Route.create_user ann_request start (λ e. cc) start-IsValid

-- A wrapped storage.EmailAlreadyTaken.
abbrev wrapped : Error
wrapped = foreign 4

-- That an email is taken is told, through the mask of the handlers.
handle_processing_error_lem_example :
    (handle_processing_error errgo encode (mask_error errgo wrapped) []
      ≡ (ok tt, error_page encode encodes 400 (message_of (known email_already_taken))))
    × (handle_processing_error errgo encode wrapped []
        ≡ (ok tt, error_page encode encodes 400 (message_of (known email_already_taken))))
handle_processing_error_lem_example =
    handle_processing_error_lem encode encodes errgo wrapped (known email_already_taken) refl refl
