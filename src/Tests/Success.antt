-- ===== src/Tests/Success.antt =====
-- When the service's methods succeed, at concrete requests over the in-memory storage.
use userd.Common.{
  String, ◌≡◌, ◌≢◌, refl, sym, some, inl, inr, arith, eq_iff, text_cases, ◌==◌, false,
}
use userd.Errors.Instance.{errgo}
use userd.User.{User}
use userd.Exec.{ok}
use userd.Storage.Directory.{SameUsers, store}
use userd.Service.Users.{create_user}
use userd.Service.Login.{new_reset_login_credentials_token, reset_credentials_with_token}
use userd.Service.Users.{change_login_credentials}
use userd.Service.Success.Changes.{renew_login, method-ok}
use userd.Service.Success.{create_user-ok}
use userd.Service.Recovery.{reset_credentials_with_token-new_reset_login_credentials_token}
use userd.Tests.Journeys.{service, created, created-IsValid, ann, ann_stored}
use userd.Tests.World.{deps, directory, storable, marshals, start, start-IsValid, config}

pub nobody : (id : String) (u : User) → directory.users start.store id ≢ some u
unfolding service
nobody id u at = cc

-- Ann is the only user.
pub only_ann : (id : String) (u : User) → directory.users created.store id ≡ some u → id ≡ "u"
unfolding service
only_ann id u at = elim (text_cases "u" id) [
  | inl (_, e) ↦ sym e
  | inr (differs, _) ↦ let gone = rw differs at at in absurd (cc)
]

create_user-ok_example : (create_user errgo deps "Ann" "ann@x" "ann" "secret" start).0 ≡ ok "u"
unfolding service
create_user-ok_example =
    create_user-ok errgo deps directory storable marshals "Ann" "ann@x" "ann" "secret" "#secret"
      start start-IsValid (λ e. ground (arith, eq_iff "Ann" ""))
      (λ e. ground (arith, eq_iff "ann@x" "")) (λ e. ground (arith, eq_iff "ann" ""))
      (λ e. ground (arith, eq_iff "secret" "")) refl (λ e. ground (arith, eq_iff "u" ""))
      (λ f id v at _ _. absurd (nobody id v at))

pub filled : (s : String) → (s == "") ≡ false → s ≢ ""
filled s h e = ground (arith, eq_iff s "")

method-ok_example : (change_login_credentials errgo deps "u" "anna" "new" created).0 ≡ ok tt
method-ok_example =
    method-ok errgo deps directory storable marshals "u" created ann created-IsValid ann_stored
      (renew_login "anna" "new" "#new")
      (filled "anna" refl, filled "new" refl, refl, λ id v at _ _. only_ann id v at)

-- 30 time units after the token was issued; it lives for 60.
reset_credentials_with_token-new_reset_login_credentials_token_example :
    ((reset_credentials_with_token errgo deps config "it" "anna" "new"
        (record (new_reset_login_credentials_token errgo deps "ann@x" created).1 { clock = 130 })).0
      ≡ ok "u")
    × SameUsers
        (directory.users
          (reset_credentials_with_token errgo deps config "it" "anna" "new"
            (record (new_reset_login_credentials_token errgo deps "ann@x" created).1 {
              clock = 130;
            })).1.store)
        (store
          (record ann { login_name = "anna"; login_password_hash = "#new" })
          (directory.users created.store))
unfolding service
reset_credentials_with_token-new_reset_login_credentials_token_example =
    reset_credentials_with_token-new_reset_login_credentials_token errgo deps directory storable
      marshals config "u" "anna" "new" "#new" ann created 130 created-IsValid ann_stored
      (filled "it" refl) (λ id v at _ _. only_ann id v at) (filled "anna" refl) (filled "new" refl)
      (λ id v at _ _. only_ann id v at) refl refl
