-- ===== src/Storage/Consistency.antt =====
-- What holds between the tables of a storage, and what `Save` writes, as one equation.
pub mod Write
pub mod Preserved
pub mod Unique
use userd.Common.{String, ◌≡◌, ◌≢◌, Option, none, some, Bool, ◌==◌, if◌then◌else◌}
use userd.Common.Table.{Table, insert, erase}
use userd.User.{User}
use userd.Exec.{Outcome, ok}
use userd.Storage.Interface.{UserCodec, Field, value}
use userd.Storage.Tables.{Tables}

abbrev pub decoded : Outcome User → Option User
decoded (ok u) = some u
decoded _ = none

abbrev pub read : UserCodec → Option String → Option User
read json none = none
read json (some text) = decoded (json.unmarshal text)

-- The user stored under an id.
abbrev pub user_at : UserCodec → Tables → String → Option User
user_at json t id = read json (t.users id)

-- The tables agree with one another.
pub record IsConsistent (json : UserCodec) (t : Tables) : Type 0 where
  -- What is stored can be read.
  pub readable :
      (id text : String) → t.users id ≡ some text → (u : User) × (json.unmarshal text ≡ ok u)
  -- A stored user has its own id, and an email and a login name.
  pub well_formed :
      (id : String) (u : User)
      → user_at json t id ≡ some u
      → (u.id ≡ id) × (u.id ≢ "") × (u.email ≢ "") × (u.login_name ≢ "")
  -- A stored user is entered under its value of each field, unless the value is empty.
  pub indexed :
      (f : Field) (id : String) (u : User)
      → user_at json t id ≡ some u
      → value f u ≢ ""
      → t.entries f (value f u) ≡ some id
  -- Every entry is owned by a stored user with that value.
  pub owned :
      (f : Field) (key id : String)
      → t.entries f key ≡ some id
      → (u : User) × (user_at json t id ≡ some u) × (value f u ≡ key) × (key ≢ "")

-- An index after the old value is removed and the new one entered, empty ones left out.
abbrev pub erase_old : String → Table → Table
erase_old old m = if old == "" then m else erase old m

abbrev pub insert_new : String → String → Table → Table
insert_new new id m = if new == "" then m else insert new id m

abbrev pub reindex : (old new id : String) → Table → Table
reindex old new id m = insert_new new id (erase_old old m)

-- The tables after `old` is replaced by `u`, written as `text`.
abbrev pub saved : (old u : User) (text : String) → Tables → Tables
saved old u text t = record {
  users = insert u.id text t.users;
  entries = λ f. reindex (value f old) (value f u) u.id (t.entries f);
}
