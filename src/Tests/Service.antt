-- ===== src/Tests/Service.antt =====
-- The effects of the service's methods at concrete requests, over the in-memory storage.
use userd.Common.{ℕ, String, ◌≡◌, [], ◌∷◌}
use userd.Exec.{ok}
use userd.Errors.Instance.{errgo}
use userd.Storage.Local.{LocalState}
use userd.Service.Backends.{World, text}
use userd.Service.Users.{create_user, change_email, change_login_credentials}
use userd.Service.Login.{new_reset_login_credentials_token, reset_credentials_with_token}
use userd.Service.Methods.{Does, Created, created_entry, create_user-Effect}
use userd.Service.Changes.{ChangeOf, change_email-Effect, change_login_credentials-Effect}
use userd.Service.Reset.{
  new_reset_login_credentials_token-Effect, LoginReset, reset_entry,
  reset_credentials_with_token-Effect,
}
use userd.Tests.World.{deps, directory, storable, marshals, start, start-IsValid, config}

abbrev created : World LocalState ℕ ℕ
created = (create_user errgo deps "Ann" "ann@x" "ann" "secret" start).1

created-IsValid : directory.IsValid created.store
created-IsValid =
    (create_user-Effect errgo deps directory storable marshals "Ann" "ann@x" "ann" "secret" start
      start-IsValid).1

create_user-Effect_example :
    Does errgo deps directory storable marshals
      (Created errgo deps directory storable marshals "Ann" "ann@x" "ann" "secret" start)
      "user.created"
      (created_entry errgo deps directory storable marshals)
      start
      (create_user errgo deps "Ann" "ann@x" "ann" "secret" start)
create_user-Effect_example =
    create_user-Effect errgo deps directory storable marshals "Ann" "ann@x" "ann" "secret" start
      start-IsValid

change_email-Effect_example :
    Does errgo deps directory storable marshals
      (ChangeOf errgo deps directory storable marshals created "u"
        (λ u u'. u' ≡ record u { email = "a@y" }))
      "user.change_email"
      (λ _. ("user_id", text "u") ∷ ("email", text "a@y") ∷ [])
      created
      (change_email errgo deps "u" "a@y" created)
change_email-Effect_example =
    change_email-Effect errgo deps directory storable marshals "u" "a@y" created created-IsValid

change_login_credentials-Effect_example :
    Does errgo deps directory storable marshals
      (ChangeOf errgo deps directory storable marshals created "u" (λ u u'.
        (salt : ℕ) × (hash : String) × ((deps.hasher.hash "new" salt).0 ≡ ok hash)
        × (u' ≡ record u { login_name = "anna"; login_password_hash = hash })))
      "user.change_login_credentials"
      (λ _. ("user_id", text "u") ∷ [])
      created
      (change_login_credentials errgo deps "u" "anna" "new" created)
change_login_credentials-Effect_example =
    change_login_credentials-Effect errgo deps directory storable marshals "u" "anna" "new" created
      created-IsValid

abbrev issued : World LocalState ℕ ℕ
issued = (new_reset_login_credentials_token errgo deps "ann@x" created).1

issued-IsValid : directory.IsValid issued.store
issued-IsValid =
    (new_reset_login_credentials_token-Effect errgo deps directory storable marshals "ann@x" created
      created-IsValid).1

reset_credentials_with_token-Effect_example :
    Does errgo deps directory storable marshals
      (LoginReset errgo deps directory storable marshals config "it" "anna" "new" issued)
      "user.login_credentials_resetted"
      (reset_entry errgo deps directory storable marshals)
      issued
      (reset_credentials_with_token errgo deps config "it" "anna" "new" issued)
reset_credentials_with_token-Effect_example =
    reset_credentials_with_token-Effect errgo deps directory storable marshals config "it" "anna"
      "new" issued issued-IsValid
