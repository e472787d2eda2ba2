-- ===== src/Storage/Tables.antt =====
-- What a lawful driver holds, as plain tables: the users by id, and the owner of each value of each
-- indexed field. It is a storage itself, and every other one is compared with it.
use userd.Common.{String, Option, if◌then◌else◌}
use userd.Common.Table.{Table, empty, insert, erase}
use userd.Exec.{Exec, ok}
use userd.Storage.Interface.{
  KeyValueIndex, KeyValueStorageDriver, KeyValueStorage, Field, login_names, emails,
  reset_password_tokens, same_field,
}

pub record Tables : Type 0 where
  pub users : Table
  pub entries : Field → Table

abbrev pub no_tables : Tables
no_tables = record { users = empty; entries = λ f. empty }

abbrev pub update_entries : Field → (Table → Table) → (Field → Table) → Field → Table
update_entries f change entries h = if same_field f h then change (entries h) else entries h

abbrev pub put_entry : Field → String → String → Exec Tables (Unit {0})
put_entry f key id t = (ok tt, record t { entries = update_entries f (insert key id) t.entries })

abbrev pub remove_entry : Field → String → Exec Tables (Unit {0})
remove_entry f key t = (ok tt, record t { entries = update_entries f (erase key) t.entries })

abbrev pub lookup_entry : Field → String → Exec Tables (Option String)
lookup_entry f key t = (ok (t.entries f key), t)

abbrev pub set_user : String → String → Exec Tables (Unit {0})
set_user id text t = (ok tt, record t { users = insert id text t.users })

abbrev pub lookup_user : String → Exec Tables (Option String)
lookup_user id t = (ok (t.users id), t)

abbrev pub entry_index : Field → KeyValueIndex Tables
entry_index f = record { put = put_entry f; remove = remove_entry f; lookup = lookup_entry f }

abbrev pub tables_driver : KeyValueStorageDriver Tables
tables_driver = record {
  set = set_user;
  lookup = lookup_user;
  index = λ name t. (entry_index login_names, t);
}

abbrev pub tables_storage : KeyValueStorage Tables
tables_storage = record {
  login_names = entry_index login_names;
  emails = entry_index emails;
  reset_password_token = entry_index reset_password_tokens;
  driver = tables_driver;
}
