-- ===== src/Tests/Journeys.antt =====
-- Runs of the service over the in-memory storage, and what a client sees over several requests.
use userd.Common.{ℕ, String, ◌≡◌, ◌≢◌, refl, arith, eq_iff, some, false}
use userd.Errors.{known, mask_service, invalid_arguments, user_email_must_be_verified}
use userd.Errors.Instance.{errgo}
use userd.User.{User, zero_user}
use userd.Exec.{ok, err}
use userd.Storage.KeyValue.{
  check_taken_by_other_user, decode, no_lock_lookup, remove_old, put_token, replace, write,
  check_token, save_valid, save, get, found_user, find_in, find_by_login_name, find_by_email,
  find_by_reset_password_token, user_storage, new_key_value_storage,
}
use userd.Storage.Local.{
  LocalState, index_put, index_remove, index_lookup, index_at, driver_set, driver_lookup,
  local_driver, new_index,
}
use userd.Storage.Local.Laws.{local-IsLawful}
use userd.Service.Backends.{World, Config, on_store, on_salt, on_ids, now, spawn, after_by}
use userd.Service.Users.{
  create_user, log_event, read_modify_write, change_login_credentials, set_email_verified,
  log_verified,
}
use userd.Service.Login.{
  rehash, authenticate_user, authenticate, new_reset_login_credentials_token, is_expired,
  reset_credentials, reset_credentials_with_token,
}
use userd.Service.Methods.{create_user-Effect}
use userd.Service.Reset.{new_reset_login_credentials_token-Effect}
use userd.Service.Journeys.{
  IsStable, authenticate-change_login_credentials, authenticate-reset_credentials_with_token,
  reset_credentials_with_token_once,
}
use userd.Common.Int.{pos}
use userd.Service.Backends.{Dependencies}
use userd.Hasher.{BcryptHasher, new_bcrypt_hasher, hash, bcrypt_hasher}
use userd.Hasher.Laws.{bcrypt_hasher-IsStable}
use userd.Tests.Hasher.{bcrypt, bcrypt-IsBcrypt}
use userd.Tests.Codec
use userd.Tests.World.{deps, directory, storable, marshals, start, start-IsValid, config, strokes}

unfoldable pub service : Unit {0}
unfolding save save_valid check_token check_taken_by_other_user write replace put_token remove_old
    no_lock_lookup decode get found_user find_in find_by_login_name find_by_email
    find_by_reset_password_token user_storage new_key_value_storage local_driver new_index index_at
    index_put index_remove index_lookup driver_set driver_lookup Codec.encode Codec.decode
    Codec.read_text on_store on_salt on_ids now spawn after_by create_user log_event
    read_modify_write change_login_credentials set_email_verified log_verified rehash
    authenticate_user authenticate new_reset_login_credentials_token is_expired reset_credentials
    reset_credentials_with_token strokes local-IsLawful
service = tt

abbrev pub created : World LocalState ℕ ℕ
created = (create_user errgo deps "Ann" "ann@x" "ann" "secret" start).1

abbrev pub verified : World LocalState ℕ ℕ
verified = (set_email_verified errgo deps "u" created).1

-- A new user may not log in before her email is verified.
first_login :
    ((create_user errgo deps "Ann" "ann@x" "ann" "secret" start).0 ≡ ok "u")
    × ((authenticate errgo deps config "ann" "secret" created).0
        ≡ err (known user_email_must_be_verified))
    × ((authenticate errgo deps config "ann" "secret" verified).0 ≡ ok "u")
unfolding service
first_login = (refl, refl, refl)

pub created-IsValid : directory.IsValid created.store
created-IsValid =
    (create_user-Effect errgo deps directory storable marshals "Ann" "ann@x" "ann" "secret" start
      start-IsValid).1

-- A configuration that asks for no verified email.
abbrev open_config : Config
open_config = record config { auth_email_must_be_verified = false }

-- The service with the hasher of the program, over a bcrypt with one cost.
abbrev hashing : BcryptHasher
hashing = record { cost = pos 4 }

abbrev bcrypt_deps : Dependencies LocalState ℕ ℕ
bcrypt_deps = record deps { hasher = bcrypt_hasher bcrypt hashing }

hasher-IsStable : IsStable (bcrypt_hasher bcrypt hashing)
unfolding new_bcrypt_hasher
hasher-IsStable = bcrypt_hasher-IsStable bcrypt bcrypt-IsBcrypt (pos 4) hashing refl

new_password : ◌≢◌ {A = String} "new" ""
new_password e = ground (arith, eq_iff "new" "")

abbrev pub ann : User
ann = record zero_user {
  id = "u";
  profile_name = "Ann";
  email = "ann@x";
  login_name = "ann";
  login_password_hash = "#secret";
}

pub ann_stored : directory.users created.store "u" ≡ some ann
unfolding service
ann_stored = refl

credentials_changed :
    (change_login_credentials errgo bcrypt_deps "u" "anna" "new" created).0 ≡ ok tt
unfolding service bcrypt_hasher hash
credentials_changed = refl

authenticate-change_login_credentials_example :
    (authenticate errgo bcrypt_deps open_config "anna" "new"
      (change_login_credentials errgo bcrypt_deps "u" "anna" "new" created).1).0
    ≡ ok "u"
authenticate-change_login_credentials_example =
    authenticate-change_login_credentials errgo bcrypt_deps directory storable marshals open_config
      "u" "anna" "new" created ann created-IsValid hasher-IsStable new_password ann_stored refl
      credentials_changed

abbrev issued : World LocalState ℕ ℕ
issued = (new_reset_login_credentials_token errgo deps "ann@x" created).1

issued-IsValid : directory.IsValid issued.store
issued-IsValid =
    (new_reset_login_credentials_token-Effect errgo deps directory storable marshals "ann@x" created
      created-IsValid).1

login_reset :
    (reset_credentials_with_token errgo deps open_config "it" "anna" "new" issued).0 ≡ ok "u"
unfolding service
login_reset = refl

bcrypt_login_reset :
    (reset_credentials_with_token errgo bcrypt_deps open_config "it" "anna" "new" issued).0 ≡ ok "u"
unfolding service bcrypt_hasher hash
bcrypt_login_reset = refl

authenticate-reset_credentials_with_token_example :
    (authenticate errgo bcrypt_deps open_config "anna" "new"
      (reset_credentials_with_token errgo bcrypt_deps open_config "it" "anna" "new" issued).1).0
    ≡ ok "u"
authenticate-reset_credentials_with_token_example =
    authenticate-reset_credentials_with_token errgo bcrypt_deps directory storable marshals
      open_config "it" "anna" "new" "u" issued issued-IsValid hasher-IsStable new_password refl
      bcrypt_login_reset

reset_credentials_with_token_once_example :
    (reset_credentials_with_token errgo deps config "it" "eve" "evil"
      (reset_credentials_with_token errgo deps open_config "it" "anna" "new" issued).1).0
    ≡ err (mask_service errgo (known invalid_arguments))
reset_credentials_with_token_once_example =
    reset_credentials_with_token_once errgo deps directory storable marshals open_config "it" "anna"
      "new" "u" issued issued-IsValid login_reset config "eve" "evil"
