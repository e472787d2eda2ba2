-- ===== src/Api/Requests.antt =====
-- What every request does, on every route of middlewares/v1/web.go.
use userd.Common.{ℕ, String, ◌≡◌, ◌≢◌, refl, List, [], ◌∷◌, Bool, not, ◌||◌, ◌==◌, if◌then◌else◌}
use userd.Errors.{ErrGo}
use userd.User.{Time, User}
use userd.Exec.{Outcome, ok, Exec, IsFailure, if_rule}
use userd.Storage.Directory.{IsDirectory}
use userd.Service.Backends.{Config, Dependencies, World, Entry, on_store}
use userd.Service.Users.{get_user}
use userd.Service.Login.{authenticate}
use userd.Service.Effects.{Effect, written, failed}
use userd.Service.Methods.{Does, create_user-Effect}
use userd.Service.Changes.{
  change_profile_name-Effect, change_email-Effect, set_email_verified-Effect,
  check_and_set_email_verified-Effect, change_login_credentials-Effect,
}
use userd.Service.Reset.{
  new_reset_login_credentials_token-Effect, reset_credentials_with_token-Effect,
}
use userd.Service.Authenticate.{
  Authenticating, no_argument, unknown, not_verified, wrong_password, accepted, hasher_failed,
  authenticate-Authenticating,
}
use userd.Service.Collector.{EventCollector}
use userd.Api.Writer.{Call, Object, call, write_no_content}
use userd.Api.Pages.{whole, write_json_response-IsPage}
use userd.Api.Atomic
use userd.Api.Atomic.{
  IsAtomic, Answered, arriving, answer-Answered, answer_unmasked-Answered, refuse-Answered,
  refuse_with-Answered,
}
use userd.Api.Handlers
use userd.Api.Handlers.{
  Request, Handler, user_id, user_object, serve_create_user, serve_get_user,
  serve_change_login_credentials, serve_change_profile_name, serve_change_email, serve_authenticate,
  serve_verify_email, serve_new_reset_login_credentials, serve_reset_credentials_token, serve_feed,
}
use userd.Api.Routes.{Route, feed_writer, serve}

-- The status that each handler writes where the service succeeds; /v1/feed writes none, which
-- net/http reads as 200.
abbrev pub success_status : Route → ℕ
success_status Route.create_user = 201
success_status Route.get_user = 200
success_status Route.change_login_credentials = 204
success_status Route.change_email = 204
success_status Route.change_profile_name = 204
success_status Route.verify_email = 204
success_status Route.authentication = 200
success_status Route.new_reset_login_credentials = 200
success_status Route.reset_credentials_token = 204
success_status Route.feed_writer = 200

module _ (g : ErrGo) {S F H : Type 0} (deps : Dependencies S F H)
    (dir : IsDirectory g deps.user_storage) (storable : (u : User) → dir.IsStorable u)
    (marshals : (e : Entry) → (bytes : String) × (deps.marshal_entry e ≡ ok bytes))
    (encode : Object → Outcome String) where
  Does-IsAtomic :
      {A : Type 0} {Done : A → User → Type 0} {tag : String} {entry : User → Entry}
      {w : World S F H} {r : Outcome A × World S F H}
      → Does g deps dir storable marshals Done tag entry w r
      → IsAtomic g deps dir w r
  Does-IsAtomic {A} {Done} {tag} {entry} {w} {r} (effect, valid) = record {
    untouched = λ fails. stays effect fails;
    valid = valid;
  }
    where
      stays :
          Effect g deps dir Done tag entry w r → IsFailure r.0 → Atomic.Untouched g deps dir w r.1
      stays (written a u bytes e _ _ _ _ _) fails = absurd (rw e at fails)
      stays (failed _ same tasks) _ = (same, tasks)

  authenticate-IsAtomic :
      (config : Config) (login_name password : String) (w : World S F H)
      → dir.IsValid w.store
      → IsAtomic g deps dir w (authenticate g deps config login_name password w)
  authenticate-IsAtomic config login_name password w v =
      let (result, valid) =
        authenticate-Authenticating g deps dir storable marshals config login_name password w v in
      record { untouched = λ fails. stays result fails; valid = valid }
    where
      stays :
          {r : Outcome String × World S F H}
          → Authenticating g deps dir storable marshals config login_name password w r
          → IsFailure r.0
          → Atomic.Untouched g deps dir w r.1
      stays (no_argument _ _ u) _ = u
      stays (unknown _ _ u) _ = u
      stays (not_verified _ _ _ _ u) _ = u
      stays (wrong_password _ _ _ _ _ u) _ = u
      stays (accepted _ _ _ _ _ e _ _ _) fails = absurd (rw e at fails)
      stays (hasher_failed _ _ _ _ _ _ u) _ = u

  get_user-IsAtomic :
      (id : String) (w : World S F H)
      → dir.IsValid w.store
      → IsAtomic g deps dir w (get_user g deps id w)
  unfolding get_user on_store
  get_user-IsAtomic id w v = record {
    untouched = λ _. (dir.get-users w.store v id, refl);
    valid = dir.get-IsValid w.store v id;
  }

  module _ (code : ℕ) (w : World S F H) (valid : dir.IsValid w.store) where
    abbrev Answers : Handler g deps encode → Type 0
    Answers handler = Answered g deps dir encode code w (handler (arriving g deps dir w))

    guarded :
        (b : Bool) (m n : Handler g deps encode)
        → Answers m
        → Answers n
        → Answers (if b then m else n)
    guarded b m n p q =
        if_rule (Answered g deps dir encode code w) b m n (arriving g deps dir w) (λ _. p) (λ _. q)

    refuses : Answers (Handlers.refuse g deps encode [])
    refuses = refuse-Answered g deps dir encode code w valid

    refuses_with : (message : String) → Answers (Handlers.refuse g deps encode (message ∷ []))
    refuses_with message = refuse_with-Answered g deps dir encode code w valid message

  module _ (w : World S F H) (valid : dir.IsValid w.store) (req : Request) where
    create_user-Answered :
        Answered g deps dir encode 201 w
          (serve_create_user g deps encode req (arriving g deps dir w))
    unfolding serve_create_user call
    create_user-Answered =
        answer-Answered g deps dir encode _ _ 201 w (λ id. whole refl refl)
          (Does-IsAtomic (create_user-Effect g deps dir storable marshals _ _ _ _ w valid))

    get_user-Answered :
        Answered g deps dir encode 200 w (serve_get_user g deps encode req (arriving g deps dir w))
    unfolding serve_get_user
    get_user-Answered = guarded 200 w valid (not (user_id req).1) _ _ (refuses 200 w valid) (
        answer-Answered g deps dir encode (get_user g deps (user_id req).0) _ 200 w
          (λ user. write_json_response-IsPage encode 200 (user_object user))
          (get_user-IsAtomic (user_id req).0 w valid))

    change_login_credentials-Answered :
        Answered g deps dir encode 204 w
          (serve_change_login_credentials g deps encode req (arriving g deps dir w))
    unfolding serve_change_login_credentials call
    change_login_credentials-Answered =
        guarded 204 w valid (not (user_id req).1) _ _ (refuses 204 w valid) (
          guarded 204 w valid (req.form_value "name" == "") _ _ (refuses_with 204 w valid _) (
            guarded 204 w valid (req.form_value "password" == "") _ _ (refuses 204 w valid) (
              answer-Answered g deps dir encode _ _ 204 w (λ _. whole refl refl)
                (Does-IsAtomic
                  (change_login_credentials-Effect g deps dir storable marshals _ _ _ w valid)))))

    change_profile_name-Answered :
        Answered g deps dir encode 204 w
          (serve_change_profile_name g deps encode req (arriving g deps dir w))
    unfolding serve_change_profile_name write_no_content call
    change_profile_name-Answered =
        guarded 204 w valid (not (user_id req).1) _ _ (refuses 204 w valid) (
          guarded 204 w valid (req.form_value "profile_name" == "") _ _ (refuses 204 w valid) (
            answer-Answered g deps dir encode _ _ 204 w (λ _. whole refl refl)
              (Does-IsAtomic
                (change_profile_name-Effect g deps dir storable marshals _ _ w valid))))

    change_email-Answered :
        Answered g deps dir encode 204 w
          (serve_change_email g deps encode req (arriving g deps dir w))
    unfolding serve_change_email call
    change_email-Answered = guarded 204 w valid (not (user_id req).1) _ _ (refuses 204 w valid) (
        guarded 204 w valid (req.form_value "email" == "") _ _ (refuses 204 w valid) (
          answer-Answered g deps dir encode _ _ 204 w (λ _. whole refl refl)
            (Does-IsAtomic (change_email-Effect g deps dir storable marshals _ _ w valid))))

    verify_email-Answered :
        Answered g deps dir encode 204 w
          (serve_verify_email g deps encode req (arriving g deps dir w))
    unfolding serve_verify_email call
    verify_email-Answered =
        guarded 204 w valid (not (user_id req).1) _ _ (refuses_with 204 w valid _) (
          guarded 204 w valid (Handlers.email req).1 _ _
            (answer-Answered g deps dir encode _ _ 204 w (λ _. whole refl refl)
              (Does-IsAtomic
                (check_and_set_email_verified-Effect g deps dir storable marshals _ _ w valid)))
            (answer-Answered g deps dir encode _ _ 204 w (λ _. whole refl refl)
              (Does-IsAtomic (set_email_verified-Effect g deps dir storable marshals _ w valid))))

    new_reset_login_credentials-Answered :
        Answered g deps dir encode 200 w
          (serve_new_reset_login_credentials g deps encode req (arriving g deps dir w))
    unfolding serve_new_reset_login_credentials
    new_reset_login_credentials-Answered =
        answer_unmasked-Answered g deps dir encode _ _ 200 w
          (λ token. write_json_response-IsPage encode 200 _)
          (Does-IsAtomic
            (new_reset_login_credentials_token-Effect g deps dir storable marshals _ w valid))

    module _ (config : Config) where
      authentication-Answered :
          Answered g deps dir encode 200 w
            (serve_authenticate g deps encode config req (arriving g deps dir w))
      unfolding serve_authenticate call
      authentication-Answered =
          guarded 200 w valid
            (req.post_form_value "name" == "" || req.post_form_value "password" == "") _ _
            (refuses 200 w valid)
            (answer-Answered g deps dir encode _ _ 200 w (λ _. whole refl refl)
              (authenticate-IsAtomic config _ _ w valid))

      reset_credentials_token-Answered :
          Answered g deps dir encode 204 w
            (serve_reset_credentials_token g deps encode config req (arriving g deps dir w))
      unfolding serve_reset_credentials_token write_no_content call
      reset_credentials_token-Answered =
          answer_unmasked-Answered g deps dir encode _ _ 204 w (λ _. whole refl refl)
            (Does-IsAtomic (
              reset_credentials_with_token-Effect g deps dir storable marshals config _ _ _ w
                valid))

  module _ (marshal_item : (tag : String) → Time → (message : String) → Outcome String)
      (encode_item : Outcome String → Exec (List Call) (Unit {0})) (config : Config)
      (esc : EventCollector) where
    -- From a valid storage, every request on a route but /v1/feed writes at most one status. It is
    -- answered by the status that the route has for a success, or by 400, 404 or 500; or it is stopped
    -- by a panic, behind such a status where a body cannot be encoded or written, and before anything
    -- is written where the service panics. Where the status is not that of a success, no user has
    -- changed and no event was logged. The storage stays valid. That each user and each event can be
    -- encoded is assumed.
    pub serve-Answered :
        (route : Route) (req : Request) (w : World S F H)
        → route ≢ feed_writer
        → dir.IsValid w.store
        → Answered g deps dir encode (success_status route) w (
            serve g deps encode marshal_item encode_item config esc route req
              (arriving g deps dir w))
    unfolding serve
    serve-Answered Route.create_user req w h valid = create_user-Answered w valid req
    serve-Answered Route.get_user req w h valid = get_user-Answered w valid req
    serve-Answered Route.change_login_credentials req w h valid =
        change_login_credentials-Answered w valid req
    serve-Answered Route.change_email req w h valid = change_email-Answered w valid req
    serve-Answered Route.change_profile_name req w h valid =
        change_profile_name-Answered w valid req
    serve-Answered Route.verify_email req w h valid = verify_email-Answered w valid req
    serve-Answered Route.authentication req w h valid = authentication-Answered w valid req config
    serve-Answered Route.new_reset_login_credentials req w h valid =
        new_reset_login_credentials-Answered w valid req
    serve-Answered Route.reset_credentials_token req w h valid =
        reset_credentials_token-Answered w valid req config
    serve-Answered Route.feed_writer req w h valid = absurd (h refl)
