-- ===== src/Api/Permitted.antt =====
-- Every request of middlewares/v1/web.go against the table of Permissions.
mod Parts
use userd.Common.{String, ◌≡◌, refl, ap, ◌∙◌, ◌||◌, ◌==◌, not, some, List, [], inl, inr}
use userd.Errors.{ErrGo}
use userd.User.{User, Time}
use userd.Exec.{Outcome, ok, Exec}
use userd.Storage.Directory.{IsDirectory}
use userd.Service.Backends.{Config, Dependencies, World, Entry, on_store}
use userd.Service.Users.{get_user}
use userd.Service.Effects.{Effect, written, failed}
use userd.Service.Methods.{Created, create_user-Effect}
use userd.Service.Changes.{
  change_profile_name-Effect, change_email-Effect, set_email_verified-Effect,
  check_and_set_email_verified-Effect, change_login_credentials-Effect,
}
use userd.Service.Reset.{
  new_reset_login_credentials_token-Effect, reset_credentials_with_token-Effect,
}
use userd.Service.Authenticate.{
  Authenticating, no_argument, unknown, not_verified, wrong_password, accepted, hasher_failed,
  authenticate-Authenticating,
}
use userd.Service.Collector.{EventCollector}
use userd.Api.Writer.{Call, Object}
use userd.Api.Handlers
use userd.Api.Handlers.{
  Request, user_id, serve_create_user, serve_get_user, serve_change_login_credentials,
  serve_change_profile_name, serve_change_email, serve_authenticate, serve_verify_email,
  serve_new_reset_login_credentials, serve_reset_credentials_token,
}
use userd.Api.Routes.{Route, serve}
use userd.Api.Atomic.{arriving}
use userd.Api.History.{feed_keeps_world}
use userd.Api.Permissions.{
  Permitted, unchanged, changed, created, profile_name-Agrees, email-Agrees, verified-Agrees,
  credentials-Agrees, hash-Agrees, token-Agrees, reset-Agrees,
}
use userd.Api.Permitted.Parts.{
  Keeps, answer-Keeps, answer_unmasked-Keeps, refuse-Keeps, guarded-Keeps, effect-Permitted,
}

module _ (g : ErrGo) {S F H : Type 0} (deps : Dependencies S F H)
    (dir : IsDirectory g deps.user_storage) (storable : (u : User) → dir.IsStorable u)
    (marshals : (e : Entry) → (bytes : String) × (deps.marshal_entry e ≡ ok bytes))
    (encode : Object → Outcome String) where
  module _ (w : World S F H) (valid : dir.IsValid w.store) where
    -- A stored user is stored under its own id, and so under that of a changed copy.
    stored_at :
        (id : String) (u u' : User)
        → dir.users w.store id ≡ some u
        → u'.id ≡ u.id
        → dir.users w.store u'.id ≡ some u
    stored_at id u u' at own =
        ap (dir.users w.store) (own ∙ (dir.well_formed w.store valid id u at).0) ∙ at

    module _ (req : Request) where
      create_user-Permitted :
          Keeps g deps dir encode Route.create_user w
            (serve_create_user g deps encode req (arriving g deps dir w))
      unfolding serve_create_user
      create_user-Permitted =
          answer-Keeps g deps dir encode Route.create_user w _ _
            (go (create_user-Effect g deps dir storable marshals _ _ _ _ w valid).0)
        where
          go :
              {r : Outcome String × World S F H} {tag : String} {entry : User → Entry}
              {name email login password : String}
              → Effect g deps dir
                  (Created g deps dir storable marshals name email login password w)
                  tag
                  entry
                  w
                  r
              → Permitted Route.create_user (dir.users w.store) (dir.users r.1.store)
          go (written id u' bytes _ (_, _, _, made) _ now _ _) =
              created u' refl (ap (λ (x : User). x.email_verified) made)
                (ap (λ (x : User). x.reset_password_token) made) now
          go (failed _ same _) = unchanged same

      get_user-Permitted :
          Keeps g deps dir encode Route.get_user w
            (serve_get_user g deps encode req (arriving g deps dir w))
      unfolding serve_get_user get_user on_store
      get_user-Permitted =
          guarded-Keeps g deps dir encode Route.get_user w (not (user_id req).1) _ _
            (refuse-Keeps g deps dir encode Route.get_user w [])
            (answer-Keeps g deps dir encode Route.get_user w _ _ (reads (user_id req).0))
        where
          reads :
              (id : String)
              → Permitted Route.get_user
                  (dir.users w.store)
                  (dir.users (get_user g deps id w).1.store)
          reads id = unchanged (dir.get-users w.store valid id)

      change_profile_name-Permitted :
          Keeps g deps dir encode Route.change_profile_name w
            (serve_change_profile_name g deps encode req (arriving g deps dir w))
      unfolding serve_change_profile_name
      change_profile_name-Permitted =
          guarded-Keeps g deps dir encode Route.change_profile_name w (not (user_id req).1) _ _
            (refuse-Keeps g deps dir encode Route.change_profile_name w [])
            (guarded-Keeps g deps dir encode Route.change_profile_name w
              (req.form_value "profile_name" == "") _ _
              (refuse-Keeps g deps dir encode Route.change_profile_name w [])
              (answer-Keeps g deps dir encode Route.change_profile_name w _ _ (
                effect-Permitted g deps dir encode Route.change_profile_name w
                  (λ _ u' (u, at, e). (
                    u,
                    stored_at _ u u' at (ap (λ (x : User). x.id) e),
                    profile_name-Agrees u u' _ e,
                  ))
                  (change_profile_name-Effect g deps dir storable marshals _ _ w valid).0)))

      change_email-Permitted :
          Keeps g deps dir encode Route.change_email w
            (serve_change_email g deps encode req (arriving g deps dir w))
      unfolding serve_change_email
      change_email-Permitted =
          guarded-Keeps g deps dir encode Route.change_email w (not (user_id req).1) _ _
            (refuse-Keeps g deps dir encode Route.change_email w [])
            (guarded-Keeps g deps dir encode Route.change_email w (req.form_value "email" == "") _ _
              (refuse-Keeps g deps dir encode Route.change_email w [])
              (answer-Keeps g deps dir encode Route.change_email w _ _ (
                effect-Permitted g deps dir encode Route.change_email w
                  (λ _ u' (u, at, e).
                    (u, stored_at _ u u' at (ap (λ (x : User). x.id) e), email-Agrees u u' _ e))
                  (change_email-Effect g deps dir storable marshals _ _ w valid).0)))

      change_login_credentials-Permitted :
          Keeps g deps dir encode Route.change_login_credentials w
            (serve_change_login_credentials g deps encode req (arriving g deps dir w))
      unfolding serve_change_login_credentials
      change_login_credentials-Permitted =
          guarded-Keeps g deps dir encode Route.change_login_credentials w (not (user_id req).1) _ _
            (refuse-Keeps g deps dir encode Route.change_login_credentials w [])
            (guarded-Keeps g deps dir encode Route.change_login_credentials w
              (req.form_value "name" == "") _ _
              (refuse-Keeps g deps dir encode Route.change_login_credentials w _)
              (guarded-Keeps g deps dir encode Route.change_login_credentials w
                (req.form_value "password" == "") _ _
                (refuse-Keeps g deps dir encode Route.change_login_credentials w [])
                (answer-Keeps g deps dir encode Route.change_login_credentials w _ _ (
                  effect-Permitted g deps dir encode Route.change_login_credentials w
                    (λ _ u' (u, at, (_, hash, _, e)). (
                      u,
                      stored_at _ u u' at (ap (λ (x : User). x.id) e),
                      credentials-Agrees u u' _ hash e,
                    ))
                    (change_login_credentials-Effect g deps dir storable marshals _ _ _ w
                      valid).0))))

      verify_email-Permitted :
          Keeps g deps dir encode Route.verify_email w
            (serve_verify_email g deps encode req (arriving g deps dir w))
      unfolding serve_verify_email
      verify_email-Permitted =
          guarded-Keeps g deps dir encode Route.verify_email w (not (user_id req).1) _ _
            (refuse-Keeps g deps dir encode Route.verify_email w _)
            (guarded-Keeps g deps dir encode Route.verify_email w (Handlers.email req).1 _ _
              (answer-Keeps g deps dir encode Route.verify_email w _ _ (
                effect-Permitted g deps dir encode Route.verify_email w
                  (λ _ u' (u, at, (_, e)).
                    (u, stored_at _ u u' at (ap (λ (x : User). x.id) e), verified-Agrees u u' e))
                  (check_and_set_email_verified-Effect g deps dir storable marshals _ _ w valid).0))
              (answer-Keeps g deps dir encode Route.verify_email w _ _ (
                effect-Permitted g deps dir encode Route.verify_email w
                  (λ _ u' (u, at, e).
                    (u, stored_at _ u u' at (ap (λ (x : User). x.id) e), verified-Agrees u u' e))
                  (set_email_verified-Effect g deps dir storable marshals _ w valid).0)))

      new_reset_login_credentials-Permitted :
          Keeps g deps dir encode Route.new_reset_login_credentials w
            (serve_new_reset_login_credentials g deps encode req (arriving g deps dir w))
      unfolding serve_new_reset_login_credentials
      new_reset_login_credentials-Permitted =
          answer_unmasked-Keeps g deps dir encode Route.new_reset_login_credentials w _ _ (
            effect-Permitted g deps dir encode Route.new_reset_login_credentials w
              (λ _ u' (u, at, _, _, e).
                (u, stored_at _ u u' at (ap (λ (x : User). x.id) e), token-Agrees u u' _ _ e))
              (new_reset_login_credentials_token-Effect g deps dir storable marshals _ w valid).0)

      module _ (config : Config) where
        reset_credentials_token-Permitted :
            Keeps g deps dir encode Route.reset_credentials_token w
              (serve_reset_credentials_token g deps encode config req (arriving g deps dir w))
        unfolding serve_reset_credentials_token
        reset_credentials_token-Permitted =
            answer_unmasked-Keeps g deps dir encode Route.reset_credentials_token w _ _ (
              effect-Permitted g deps dir encode Route.reset_credentials_token w
                (λ _ u' (u, _, hash, at, _, _, _, _, _, _, e).
                  (u, stored_at _ u u' at (ap (λ (x : User). x.id) e), reset-Agrees u u' _ hash e))
                (reset_credentials_with_token-Effect g deps dir storable marshals config _ _ _ w
                  valid).0)

        authentication-Permitted :
            Keeps g deps dir encode Route.authentication w
              (serve_authenticate g deps encode config req (arriving g deps dir w))
        unfolding serve_authenticate
        authentication-Permitted =
            guarded-Keeps g deps dir encode Route.authentication w
              (req.post_form_value "name" == "" || req.post_form_value "password" == "") _ _
              (refuse-Keeps g deps dir encode Route.authentication w [])
              (answer-Keeps g deps dir encode Route.authentication w _ _ (
                go (authenticate-Authenticating g deps dir storable marshals config _ _ w valid).0))
          where
            go :
                {name password : String} {r : Outcome String × World S F H}
                → Authenticating g deps dir storable marshals config name password w r
                → Permitted Route.authentication (dir.users w.store) (dir.users r.1.store)
            go (no_argument _ _ (same, _)) = unchanged same
            go (unknown _ _ (same, _)) = unchanged same
            go (not_verified _ _ _ _ (same, _)) = unchanged same
            go (wrong_password _ _ _ _ _ (same, _)) = unchanged same
            go (hasher_failed _ _ _ _ _ _ (same, _)) = unchanged same
            go (accepted u _ _ _ _ _ (inl same) _ _) = unchanged same
            go (accepted u _ (at, _) _ _ _ (inr (hash, _, _, now)) _ _) =
                changed u (record u { login_password_hash = hash }) at (hash-Agrees u _ hash refl)
                  now

  module _ (marshal_item : (tag : String) → Time → (message : String) → Outcome String)
      (encode_item : Outcome String → Exec (List Call) (Unit {0})) (config : Config)
      (esc : EventCollector) where
    -- From a valid storage, every request on every route keeps to the table of the routes: it changes no
    -- user; or it changes one stored user, in no other attribute than those that the table has for the
    -- route; or it is a creation, and stores one user with an email that is not verified and no
    -- reset token.
    pub serve-Permitted :
        (route : Route) (req : Request) (w : World S F H)
        → dir.IsValid w.store
        → Permitted route (dir.users w.store) (
            dir.users
              (serve g deps encode marshal_item encode_item config esc route req
                (arriving g deps dir w)).1.world.store)
    unfolding serve
    serve-Permitted Route.create_user req w valid = create_user-Permitted w valid req
    serve-Permitted Route.get_user req w valid = get_user-Permitted w valid req
    serve-Permitted Route.change_login_credentials req w valid =
        change_login_credentials-Permitted w valid req
    serve-Permitted Route.change_email req w valid = change_email-Permitted w valid req
    serve-Permitted Route.change_profile_name req w valid =
        change_profile_name-Permitted w valid req
    serve-Permitted Route.verify_email req w valid = verify_email-Permitted w valid req
    serve-Permitted Route.authentication req w valid = authentication-Permitted w valid req config
    serve-Permitted Route.new_reset_login_credentials req w valid =
        new_reset_login_credentials-Permitted w valid req
    serve-Permitted Route.reset_credentials_token req w valid =
        reset_credentials_token-Permitted w valid req config
    serve-Permitted Route.feed_writer req w valid = unchanged (λ i.
        ap (λ (v : World S F H). dir.users v.store i)
          (feed_keeps_world g deps dir marshal_item encode_item config encode esc req w))
