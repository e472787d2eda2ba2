-- ===== src/Storage/KeyValue.antt =====
-- service/storage/keyvalue.go: `keyValueStorage`, a user storage over a driver and three indices.
use userd.Common.{String, Bool, false, not, Option, none, some, ◌==◌, if◌then◌else◌}
use userd.Errors.{
  ErrGo, known, err_is, mask_all, invalid_user_object, user_not_found, email_already_taken,
  login_name_already_taken,
}
use userd.User.{User, zero_user}
use userd.Exec.{Exec, pure, fail, abort, lift, map_error, attempt, ignore, ◌>>=◌, ◌>>◌}
use userd.Storage.Interface.{
  UserStorage, KeyValueIndex, KeyValueStorageDriver, KeyValueStorage, UserCodec,
}

unfoldable pub new_key_value_storage :
    {S : Type 0} → KeyValueStorageDriver S → S → KeyValueStorage S × S
new_key_value_storage driver s =
    let (login_names, s₁) = driver.index "login_name" s in
    let (emails, s₂) = driver.index "emails" s₁ in
    let (reset_password_token, s₃) = driver.index "reset_password_token" s₂ in
    (
      record {
        login_names = login_names;
        emails = emails;
        reset_password_token = reset_password_token;
        driver = driver;
      },
      s₃,
    )

-- `taken && otherUserID != userID`
abbrev pub taken_by_other : Option String → String → Bool
taken_by_other none user_id = false
taken_by_other (some other) user_id = not (other == user_id)

module _ (g : ErrGo) (json : UserCodec) {S : Type 0} where
  unfoldable pub check_taken_by_other_user : KeyValueIndex S → String → String → Exec S Bool
  check_taken_by_other_user index key user_id = do
    found ← map_error (mask_all g) (index.lookup key)
    pure (taken_by_other found user_id)

  -- json.Unmarshal of what the driver found.
  unfoldable pub decode : Option String → Exec S User
  decode none = fail (known user_not_found)
  decode (some text) = map_error (mask_all g) (lift (json.unmarshal text))

module _ (g : ErrGo) (json : UserCodec) {S : Type 0} (kv : KeyValueStorage S) where
  unfoldable pub no_lock_lookup : String → Exec S User
  no_lock_lookup user_id = do
    found ← map_error (mask_all g) (kv.driver.lookup user_id)
    decode g json found

  -- The old entry is removed if the old value is not empty; the error is dropped.
  unfoldable pub remove_old : KeyValueIndex S → String → Exec S (Unit {0})
  remove_old index old = if old == "" then pure tt else ignore (index.remove old)

  -- An empty reset token is not entered.
  unfoldable pub put_token : User → Exec S (Unit {0})
  put_token user =
      if user.reset_password_token == ""
      then pure tt
      else ignore (kv.reset_password_token.put user.reset_password_token user.id)

  -- From `s.Emails.Remove` on: the indices, and then the user. Errors of the driver are dropped.
  unfoldable pub replace : (old user : User) → Exec S (Unit {0})
  replace old user = do
    remove_old kv.emails old.email
    remove_old kv.login_names old.login_name
    remove_old kv.reset_password_token old.reset_password_token
    ignore (kv.emails.put user.email user.id)
    ignore (kv.login_names.put user.login_name user.id)
    put_token user
    text ← map_error (mask_all g) (lift (json.marshal user))
    ignore (kv.driver.set user.id text)

  -- The part of `Save` behind the comment `Write`: a user that is not found counts as empty.
  unfoldable pub write : User → Exec S (Unit {0})
  write user =
      attempt (no_lock_lookup user.id) (λ old. replace old user)
        λ e. if err_is e user_not_found then replace zero_user user else fail (mask_all g e)

  -- The check of a reset token, which an empty one passes.
  unfoldable pub check_token : User → Exec S Bool
  check_token user =
      if user.reset_password_token == ""
      then pure false
      else map_error (mask_all g) (
          check_taken_by_other_user g json kv.reset_password_token user.reset_password_token
            user.id)

  -- The part of `Save` behind the checks for empty fields.
  unfoldable pub save_valid : User → Exec S (Unit {0})
  save_valid user = do
    taken ← map_error (mask_all g) (check_taken_by_other_user g json kv.emails user.email user.id)
    if taken then fail (known email_already_taken) else do
      taken ←
          map_error (mask_all g)
            (check_taken_by_other_user g json kv.login_names user.login_name user.id)
      if taken then fail (known login_name_already_taken) else do
        taken ← check_token user
        if taken then fail (known login_name_already_taken) else write user

  unfoldable pub save : User → Exec S (Unit {0})
  save user =
      if user.id == ""
      then fail (mask_all g (known invalid_user_object))
      else if user.email == ""
      then fail (mask_all g (known invalid_user_object))
      else if user.login_name == ""
      then fail (mask_all g (known invalid_user_object))
      else save_valid user

  unfoldable pub get : String → Exec S User
  get user_id = if user_id == "" then abort else no_lock_lookup user_id

  unfoldable pub found_user : Option String → Exec S User
  found_user none = fail (known user_not_found)
  found_user (some user_id) = no_lock_lookup user_id

  -- The body that the three `FindBy` methods share, at an index.
  unfoldable pub find_in : KeyValueIndex S → String → Exec S User
  find_in index key = do found ← map_error (mask_all g) (index.lookup key); found_user found

  unfoldable pub find_by_login_name : String → Exec S User
  find_by_login_name login_name = find_in kv.login_names login_name

  unfoldable pub find_by_email : String → Exec S User
  find_by_email email = find_in kv.emails email

  unfoldable pub find_by_reset_password_token : String → Exec S User
  find_by_reset_password_token token = find_in kv.reset_password_token token

  unfoldable pub user_storage : UserStorage S
  user_storage = record {
    save = save;
    get = get;
    find_by_login_name = find_by_login_name;
    find_by_email = find_by_email;
    find_by_reset_password_token = find_by_reset_password_token;
  }
