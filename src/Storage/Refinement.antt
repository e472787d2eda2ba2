-- ===== src/Storage/Refinement.antt =====
-- A storage over any driver whose methods follow those of the plain tables does what the storage
-- over the tables does: each method of keyvalue.go has the same outcome and leaves the same view.
use userd.Common.{String, Option, none, some, ◌==◌, false}
use userd.Errors.{ErrGo, err_is, user_not_found}
use userd.User.{User, zero_user}
use userd.Exec.{ignore}
use userd.Storage.Interface.{
  KeyValueIndex, KeyValueStorage, UserCodec, Field, login_names, emails, reset_password_tokens,
  index_of, find,
}
use userd.Storage.KeyValue.{
  check_taken_by_other_user, decode, no_lock_lookup, remove_old, put_token, replace, write,
  check_token, save_valid, save, get, found_user, find_in, find_by_login_name, find_by_email,
  find_by_reset_password_token, user_storage,
}
use userd.Storage.Tables.{Tables, tables_storage}
use userd.Storage.Follows.{
  Follows, Follows-pure, Follows-fail, Follows-abort, Follows-lift, Follows-map_error, Follows-if,
  Follows-attempt, Follows-bind, Follows-ignore,
}

-- Every method of an index follows that of another index.
pub record IndexFollows {S T : Type 0} (view : S → T) (i : KeyValueIndex S) (j : KeyValueIndex T)
    : Type 0 where
  pub put : (key id : String) → Follows view (i.put key id) (j.put key id)
  pub remove : (key : String) → Follows view (i.remove key) (j.remove key)
  pub lookup : (key : String) → Follows view (i.lookup key) (j.lookup key)

-- A storage that behaves like one over the plain tables.
pub record IsLawful {S : Type 0} (kv : KeyValueStorage S) : Type 0 where
  pub view : S → Tables
  pub set :
      (id text : String) → Follows view (kv.driver.set id text) (tables_storage.driver.set id text)
  pub lookup : (id : String) → Follows view (kv.driver.lookup id) (tables_storage.driver.lookup id)
  pub index : (f : Field) → IndexFollows view (index_of kv f) (index_of tables_storage f)

module _ (g : ErrGo) (json : UserCodec) {S : Type 0} (kv : KeyValueStorage S)
    (lawful : IsLawful kv) where
  abbrev view : S → Tables
  view = lawful.view

  check-Follows :
      (f : Field) (key id : String)
      → Follows view
          (check_taken_by_other_user g json (index_of kv f) key id)
          (check_taken_by_other_user g json (index_of tables_storage f) key id)
  unfolding check_taken_by_other_user
  check-Follows f key id =
      Follows-bind _ _ (λ a. Follows-pure _) _ _
        (Follows-map_error _ _ _ ((lawful.index f).lookup key))

  decode-Follows : (o : Option String) → Follows view (decode g json o) (decode g json o)
  unfolding decode
  decode-Follows none = Follows-fail _
  decode-Follows (some text) = Follows-map_error _ _ _ (Follows-lift _)

  lookup-Follows :
      (id : String)
      → Follows view (no_lock_lookup g json kv id) (no_lock_lookup g json tables_storage id)
  unfolding no_lock_lookup
  lookup-Follows id =
      Follows-bind _ _ decode-Follows _ _ (Follows-map_error _ _ _ (lawful.lookup id))

  remove_old-Follows :
      (f : Field) (old : String)
      → Follows view
          (remove_old g json kv (index_of kv f) old)
          (remove_old g json tables_storage (index_of tables_storage f) old)
  unfolding remove_old
  remove_old-Follows f old =
      Follows-if (old == "") _ _ _ _ (Follows-pure tt)
        (Follows-ignore _ _ ((lawful.index f).remove old))

  put-Follows :
      (f : Field) (key id : String)
      → Follows view
          (ignore ((index_of kv f).put key id))
          (ignore ((index_of tables_storage f).put key id))
  put-Follows f key id = Follows-ignore _ _ ((lawful.index f).put key id)

  put_token-Follows :
      (u : User) → Follows view (put_token g json kv u) (put_token g json tables_storage u)
  unfolding put_token
  put_token-Follows u =
      Follows-if (u.reset_password_token == "") _ _ _ _ (Follows-pure tt)
        (put-Follows reset_password_tokens _ _)

  replace-Follows :
      (old u : User) → Follows view (replace g json kv old u) (replace g json tables_storage old u)
  unfolding replace
  replace-Follows old u =
      Follows-bind _ _
        (λ _.
          Follows-bind _ _
            (λ _.
              Follows-bind _ _
                (λ _.
                  Follows-bind _ _
                    (λ _.
                      Follows-bind _ _
                        (λ _.
                          Follows-bind _ _
                            (λ _.
                              Follows-bind _ _ (λ text. Follows-ignore _ _ (lawful.set u.id text)) _
                                _ (Follows-map_error _ _ _ (Follows-lift _)))
                            _ _ (put_token-Follows u))
                        _ _ (put-Follows login_names _ _))
                    _ _ (put-Follows emails _ _))
                _ _ (remove_old-Follows reset_password_tokens _))
            _ _ (remove_old-Follows login_names _))
        _ _ (remove_old-Follows emails _)

  write-Follows : (u : User) → Follows view (write g json kv u) (write g json tables_storage u)
  unfolding write
  write-Follows u =
      Follows-attempt _ _ _ _ (λ old. replace-Follows old u)
        (λ e.
          Follows-if (err_is e user_not_found) _ _ _ _ (replace-Follows zero_user u)
            (Follows-fail _))
        _ _ (lookup-Follows u.id)

  check_token-Follows :
      (u : User) → Follows view (check_token g json kv u) (check_token g json tables_storage u)
  unfolding check_token
  check_token-Follows u =
      Follows-if (u.reset_password_token == "") _ _ _ _ (Follows-pure false)
        (Follows-map_error _ _ _ (check-Follows reset_password_tokens _ _))

  save_valid-Follows :
      (u : User) → Follows view (save_valid g json kv u) (save_valid g json tables_storage u)
  unfolding save_valid
  save_valid-Follows u =
      Follows-bind _ _
        (λ t. Follows-if t _ _ _ _ (Follows-fail _) (
          Follows-bind _ _
            (λ t. Follows-if t _ _ _ _ (Follows-fail _) (
              Follows-bind _ _ (λ t. Follows-if t _ _ _ _ (Follows-fail _) (write-Follows u)) _ _
                (check_token-Follows u)))
            _ _ (Follows-map_error _ _ _ (check-Follows login_names _ _))))
        _ _ (Follows-map_error _ _ _ (check-Follows emails _ _))

  -- Over a lawful driver, Save has the outcome that it has over the plain tables, and leaves a state
  -- that looks like the tables it leaves.
  pub save-Follows : (u : User) → Follows view (save g json kv u) (save g json tables_storage u)
  unfolding save
  save-Follows u = Follows-if (u.id == "") _ _ _ _ (Follows-fail _) (
      Follows-if (u.email == "") _ _ _ _ (Follows-fail _)
        (Follows-if (u.login_name == "") _ _ _ _ (Follows-fail _) (save_valid-Follows u)))

  -- So does Get, its panic at an empty id included.
  pub get-Follows : (id : String) → Follows view (get g json kv id) (get g json tables_storage id)
  unfolding get
  get-Follows id = Follows-if (id == "") _ _ _ _ Follows-abort (lookup-Follows id)

  found_user-Follows :
      (o : Option String)
      → Follows view (found_user g json kv o) (found_user g json tables_storage o)
  unfolding found_user
  found_user-Follows none = Follows-fail _
  found_user-Follows (some id) = lookup-Follows id

  find_in-Follows :
      (f : Field) (key : String)
      → Follows view
          (find_in g json kv (index_of kv f) key)
          (find_in g json tables_storage (index_of tables_storage f) key)
  unfolding find_in
  find_in-Follows f key =
      Follows-bind _ _ found_user-Follows _ _
        (Follows-map_error _ _ _ ((lawful.index f).lookup key))

  -- So do the three methods that find a user by an indexed field.
  pub find-Follows :
      (f : Field) (key : String)
      → Follows view
          (find (user_storage g json kv) f key)
          (find (user_storage g json tables_storage) f key)
  unfolding user_storage find_by_login_name find_by_email find_by_reset_password_token
  find-Follows login_names key = find_in-Follows login_names key
  find-Follows emails key = find_in-Follows emails key
  find-Follows reset_password_tokens key = find_in-Follows reset_password_tokens key
