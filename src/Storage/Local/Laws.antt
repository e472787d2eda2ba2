-- ===== src/Storage/Local/Laws.antt =====
-- NewLocalStorage() is a lawful storage: its three indices are three objects.
use userd.Common.{ℕ, ◌≡◌, refl, ap, fun_ext, arith}
use userd.Common.Table.{Table, empty, insert, erase}
use userd.Storage.Interface.{
  KeyValueStorage, Field, login_names, emails, reset_password_tokens, index_of,
}
use userd.Storage.KeyValue.{new_key_value_storage}
use userd.Storage.Tables.{Tables, no_tables, update_entries, tables_storage, entry_index}
use userd.Storage.Refinement.{IndexFollows, IsLawful}
use userd.Storage.Local.{
  LocalState, update, index_put, index_remove, index_lookup, index_at, new_index, driver_set,
  driver_lookup, local_driver, fresh,
}

-- NewLocalStorage(): the storage object, and the memory that it lies in.
abbrev pub new_local_storage : KeyValueStorage LocalState × LocalState
unfolding new_key_value_storage local_driver new_index
new_local_storage = new_key_value_storage local_driver fresh

abbrev pub local_storage : KeyValueStorage LocalState
local_storage = new_local_storage.0

-- The address of each index, in the order of the three calls of `driver.Index`.
abbrev pub address : Field → ℕ
address login_names = 0
address emails = 1
address reset_password_tokens = 2

abbrev pub view : LocalState → Tables
view s = record { users = s.users; entries = λ f. s.indices (address f) }

pub view-update :
    (f : Field) (change : Table → Table) (s : LocalState)
    → Path
        (Field → Table)
        (λ h. update (address f) (change (s.indices (address f))) s.indices (address h))
        (update_entries f change (λ h. s.indices (address h)))
view-update f change s = fun_ext (at_field f)
  where
    at_field :
        (f h : Field)
        → update (address f) (change (s.indices (address f))) s.indices (address h)
          ≡ update_entries f change (λ h. s.indices (address h)) h
    at_field f h = ground arith

pub entry-Follows : (f : Field) → IndexFollows view (index_at (address f)) (entry_index f)
unfolding index_at index_put index_remove index_lookup
entry-Follows f = record {
  put = λ key id. record {
    outcome = λ s. refl;
    state = λ s.
        ap (λ (e : Field → Table). record { users = s.users; entries = e })
          (view-update f (insert key id) s);
  };
  remove = λ key. record {
    outcome = λ s. refl;
    state = λ s.
        ap (λ (e : Field → Table). record { users = s.users; entries = e })
          (view-update f (erase key) s);
  };
  lookup = λ key. record { outcome = λ s. refl; state = λ s. refl };
}

pub index-Follows :
    (f : Field) → IndexFollows view (index_of local_storage f) (index_of tables_storage f)
unfolding new_local_storage
index-Follows login_names = entry-Follows login_names
index-Follows emails = entry-Follows emails
index-Follows reset_password_tokens = entry-Follows reset_password_tokens

-- The in-memory storage is lawful, seen as the tables in its memory.
unfoldable pub local-IsLawful : IsLawful local_storage
unfolding new_local_storage driver_set driver_lookup
local-IsLawful = record {
  view = view;
  set = λ id text. record { outcome = λ s. refl; state = λ s. refl };
  lookup = λ id. record { outcome = λ s. refl; state = λ s. refl };
  index = index-Follows;
}

no_entries : (f : Field) → new_local_storage.1.indices (address f) ≡ empty
unfolding new_local_storage
no_entries login_names = refl
no_entries emails = refl
no_entries reset_password_tokens = refl

-- A new one is empty.
pub new_local_storage-empty : view new_local_storage.1 ≡ no_tables
unfolding new_local_storage
new_local_storage-empty =
    ap (λ (e : Field → Table). record { users = empty; entries = e }) (fun_ext no_entries)
