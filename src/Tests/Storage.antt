-- ===== src/Tests/Storage.antt =====
-- Runs of the in-memory storage, and the theorems about storages at it.

use userd.Common.{String, ◌≡◌, refl, some, ◌≢◌, arith, eq_iff}
use userd.Errors.{foreign, user_not_found, known, email_already_taken}
use userd.Errors.Instance.{errgo}
use userd.User.{User, zero_user}
use userd.Exec.{Outcome, ok, err, panic}
use userd.Storage.Interface.{emails, value, find}
use userd.Storage.KeyValue.{
  check_taken_by_other_user, decode, no_lock_lookup, remove_old, put_token, replace, write,
  check_token, save_valid, save, get, found_user, find_in, find_by_login_name, find_by_email,
  user_storage, new_key_value_storage,
}
use userd.Storage.Local.{
  LocalState, index_put, index_remove, index_lookup, index_at, driver_set, driver_lookup,
  local_driver, new_index,
}
use userd.Storage.Local.Laws.{
  local_storage, new_local_storage, local-IsLawful, new_local_storage-empty,
}
use userd.Storage.Tables.{Tables, no_tables, tables_storage}
use userd.Storage.Save.{save-Outcomes}
use userd.Storage.Directory.{Saving, Finding}
use userd.Storage.Contract.{
  IsValid, users, save-Saving, find-Finding, empty-IsValid, no_tables-IsConsistent,
}
use userd.Storage.RoundTrip.{find-save}
use userd.Storage.Dropped.{without_set, save-without_set}
use userd.Storage.Race.{save_checks, raced_save, raced_save_lem}
use userd.Storage.Consistency.{IsConsistent, user_at}
use userd.Tests.Codec

abbrev ann : User
ann = record zero_user { id = "1"; email = "ann@x"; login_name = "ann"; login_password_hash = "#a" }

abbrev bob : User
bob = record zero_user { id = "2"; email = "ann@x"; login_name = "bob"; login_password_hash = "#b" }

abbrev before : LocalState
before = new_local_storage.1

storage : Unit {0}
unfolding save save_valid check_token check_taken_by_other_user write replace put_token remove_old
    no_lock_lookup decode get found_user find_in find_by_login_name find_by_email user_storage
    new_key_value_storage local_driver new_index index_at index_put index_remove index_lookup
    driver_set driver_lookup Codec.encode Codec.decode Codec.read_text
storage = tt

abbrev after : LocalState
after = (save errgo Codec.codec local_storage ann before).1

-- Ann is stored, and found by her login name; Bob cannot take her email.
run :
    ((save errgo Codec.codec local_storage ann before).0 ≡ ok tt)
    × ((find_by_login_name errgo Codec.codec local_storage "ann" after).0 ≡ ok ann)
    × ((find_by_login_name errgo Codec.codec local_storage "bob" after).0
        ≡ err (known user_not_found))
    × ((save errgo Codec.codec local_storage bob after).0 ≡ err (known email_already_taken))
unfolding storage
run = (refl, refl, refl, refl)

before-IsValid : IsValid errgo Codec.codec local_storage local-IsLawful before
unfolding local-IsLawful
before-IsValid =
    empty-IsValid errgo Codec.codec local_storage local-IsLawful before new_local_storage-empty

ann_storable : (text : String) × (Codec.codec.marshal ann ≡ ok text)
ann_storable = (Codec.encode ann, refl)

save-Saving_example :
    Saving errgo
      (users errgo Codec.codec local_storage local-IsLawful before)
      ann
      (save errgo Codec.codec local_storage ann before).0
      (users errgo Codec.codec local_storage local-IsLawful after)
    × IsValid errgo Codec.codec local_storage local-IsLawful after
save-Saving_example =
    save-Saving errgo Codec.codec local_storage local-IsLawful before before-IsValid ann
      ann_storable

after-IsValid : IsValid errgo Codec.codec local_storage local-IsLawful after
after-IsValid =
    (save-Saving errgo Codec.codec local_storage local-IsLawful before before-IsValid ann
      ann_storable).1

-- The tables that hold Ann.
abbrev ann_tables : Tables
ann_tables = (save errgo Codec.codec tables_storage ann no_tables).1

ann_tables-IsConsistent : IsConsistent Codec.codec ann_tables
ann_tables-IsConsistent =
    (save-Outcomes errgo Codec.codec no_tables no_tables-IsConsistent ann (Codec.encode ann) refl).1

ann_found : user_at Codec.codec ann_tables "1" ≡ some ann
unfolding storage
ann_found = refl

ann_email : value emails ann ≢ ""
ann_email e = ground (arith, eq_iff "ann@x" "")

find-Finding_example :
    Finding
      (users errgo Codec.codec local_storage local-IsLawful after)
      emails
      "ann@x"
      (find (user_storage errgo Codec.codec local_storage) emails "ann@x" after).0
find-Finding_example =
    find-Finding errgo Codec.codec local_storage local-IsLawful after after-IsValid emails "ann@x"

saved : (save errgo Codec.codec local_storage ann before).0 ≡ ok tt
unfolding storage
saved = refl

ann_id : ann.id ≢ ""
ann_id e = ground (arith, eq_iff "1" "")

find-save_example :
    ((get errgo Codec.codec local_storage "1" after).0 ≡ ok ann)
    × ((find (user_storage errgo Codec.codec local_storage) emails "ann@x" after).0 ≡ ok ann)
unfolding storage
find-save_example =
    find-save errgo Codec.codec local_storage local-IsLawful before ann before-IsValid ann_storable
      saved "1" ann_id emails ann_email

-- Ann and Bob are saved at the same time, with one email.
raced_save_lem_example :
    ((raced_save errgo Codec.codec tables_storage ann bob no_tables).0 ≡ ok tt)
    × (user_at Codec.codec (raced_save errgo Codec.codec tables_storage ann bob no_tables).1 "1"
        ≡ some ann)
    × (user_at Codec.codec (raced_save errgo Codec.codec tables_storage ann bob no_tables).1 "2"
        ≡ some bob)
    × (¬ IsConsistent Codec.codec (raced_save errgo Codec.codec tables_storage ann bob no_tables).1)
unfolding storage save_checks
raced_save_lem_example =
    raced_save_lem errgo Codec.codec no_tables no_tables-IsConsistent ann bob (Codec.encode ann)
      (Codec.encode bob) refl refl refl refl (λ e. ground (arith, eq_iff "1" "2")) refl

sets :
    (id text : String) (s : LocalState)
    → ¬ Path (Outcome (Unit {0})) (local_storage.driver.set id text s).0 panic
unfolding storage
sets id text s e = cc

-- A driver that does not store Ann.
save-without_set_example :
    (save errgo Codec.codec
      (without_set errgo Codec.codec local_storage (foreign 7) sets)
      ann
      before).0
    ≡ (save errgo Codec.codec local_storage ann before).0
save-without_set_example =
    save-without_set errgo Codec.codec local_storage (foreign 7) sets ann before
