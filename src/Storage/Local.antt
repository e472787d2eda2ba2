-- ===== src/Storage/Local.antt =====
-- service/storage/local.go: the driver that keeps all in memory. Each `Index` is an object of its
-- own, so the indices lie in a heap, by their addresses; `New…` takes the next free one. Every
-- method holds the object's lock from its first to its last line, and so is one step.
pub mod Laws
use userd.Common.{ℕ, ◌+◌, String, Option, nat_eq, if◌then◌else◌}
use userd.Common.Table.{Table, empty, insert, erase}
use userd.Exec.{Exec, ok}
use userd.Storage.Interface.{KeyValueIndex, KeyValueStorageDriver}

pub record LocalState : Type 0 where
  -- Map{userID => userJson}
  pub users : Table
  -- The `Data` of each index.
  pub indices : ℕ → Table
  pub next : ℕ

abbrev pub update : ℕ → Table → (ℕ → Table) → ℕ → Table
update address table heap i = if nat_eq address i then table else heap i

-- (i *Index) Put, Remove and Lookup
unfoldable pub index_put : ℕ → String → String → Exec LocalState (Unit {0})
index_put i key val s =
    (ok tt, record s { indices = update i (insert key val (s.indices i)) s.indices })

unfoldable pub index_remove : ℕ → String → Exec LocalState (Unit {0})
index_remove i key s = (ok tt, record s { indices = update i (erase key (s.indices i)) s.indices })

unfoldable pub index_lookup : ℕ → String → Exec LocalState (Option String)
index_lookup i key s = (ok (s.indices i key), s)

unfoldable pub index_at : ℕ → KeyValueIndex LocalState
index_at i = record { put = index_put i; remove = index_remove i; lookup = index_lookup i }

-- NewIndex()
unfoldable pub new_index : LocalState → KeyValueIndex LocalState × LocalState
new_index s =
    (index_at s.next, record s { indices = update s.next empty s.indices; next = s.next + 1 })

unfoldable pub driver_set : String → String → Exec LocalState (Unit {0})
driver_set user_id user_json s = (ok tt, record s { users = insert user_id user_json s.users })

unfoldable pub driver_lookup : String → Exec LocalState (Option String)
driver_lookup user_id s = (ok (s.users user_id), s)

unfoldable pub local_driver : KeyValueStorageDriver LocalState
local_driver = record { set = driver_set; lookup = driver_lookup; index = λ name. new_index }

-- The objects that NewLocalStorage() makes, before the indices.
abbrev pub fresh : LocalState
fresh = record { users = empty; indices = λ i. empty; next = 0 }
