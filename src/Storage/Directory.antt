-- ===== src/Storage/Directory.antt =====
-- What a user storage promises, told by the users that it holds and nothing of its tables: the
-- contract between the service and service/storage. `Saving` and `Finding` are the specifications
-- of `Save` and of the three `FindBy` methods, branch by branch.
use userd.Common.{String, ◌≡◌, ◌≢◌, ◌⊎◌, Option, none, some, ◌==◌, if◌then◌else◌}
use mathlib.Core.Path.{subst}
use userd.Errors.{
  ErrGo, Sentinel, known, mask_all, invalid_user_object, user_not_found, email_already_taken,
  login_name_already_taken,
}
use userd.User.{User}
use userd.Exec.{Outcome, ok, err, panic}
use userd.Storage.Interface.{
  UserStorage, Field, login_names, emails, reset_password_tokens, value, find,
}

-- The users by their ids.
abbrev pub Directory : Type 0
Directory = String → Option User

-- Two directories hold the same users.
abbrev pub SameUsers : Directory → Directory → Type 0
SameUsers d' d = (i : String) → d' i ≡ d i

-- The directory in which the user is stored under its id.
abbrev pub store : User → Directory → Directory
store u d i = if u.id == i then some u else d i

-- No other user has a value of u.
abbrev pub IsFree : Directory → User → Type 0
IsFree d u =
    (f : Field) (id : String) (v : User)
    → d id ≡ some v
    → value f v ≡ value f u
    → value f u ≢ ""
    → id ≡ u.id

-- Another user has u's value of the field.
pub record IsTaken (d : Directory) (u : User) (f : Field) : Type 0 where
  pub owner : String
  pub other : User
  pub stored : d owner ≡ some other
  pub same : value f other ≡ value f u
  pub filled : value f u ≢ ""
  pub distinct : owner ≢ u.id

abbrev pub taken_error : Field → Sentinel
taken_error emails = email_already_taken
taken_error login_names = login_name_already_taken
taken_error reset_password_tokens = login_name_already_taken

abbrev pub IsIncomplete : User → Type 0
IsIncomplete u = (u.id ≡ "") ⊎ ((u.email ≡ "") ⊎ (u.login_name ≡ ""))

module _ (g : ErrGo) where
  -- Save(u): outcome r, from the users d to the users d'.
  pub data Saving (d : Directory) (u : User) (r : Outcome (Unit {0})) (d' : Directory)
      : Type 0 where
    done : r ≡ ok tt → ¬ IsIncomplete u → IsFree d u → SameUsers d' (store u d) → Saving d u r d'
    incomplete :
        r ≡ err (mask_all g (known invalid_user_object))
        → IsIncomplete u
        → SameUsers d' d
        → Saving d u r d'
    taken :
        (f : Field)
        → r ≡ err (known (taken_error f))
        → IsTaken d u f
        → SameUsers d' d
        → Saving d u r d'

-- FindBy…(key): the user with that value, or none.
pub data Finding (d : Directory) (f : Field) (key : String) (r : Outcome User) : Type 0 where
  one : (u : User) → r ≡ ok u → d u.id ≡ some u → value f u ≡ key → key ≢ "" → Finding d f key r
  missing :
      r ≡ err (known user_not_found)
      → ((id : String) (u : User) → d id ≡ some u → value f u ≡ key → key ≡ "")
      → Finding d f key r

-- What reading a user gives.
abbrev pub found : Option User → Outcome User
found none = err (known user_not_found)
found (some u) = ok u

-- A storage that keeps the promises, in its valid states.
pub record IsDirectory (g : ErrGo) {S : Type 0} (st : UserStorage S) : Type 1 where
  pub IsValid : S → Type 0
  pub users : S → Directory
  -- What can be written, as far as the encoding goes.
  pub IsStorable : User → Type 0
  pub well_formed :
      (s : S)
      → IsValid s
      → (id : String) (u : User) → users s id ≡ some u
      → (u.id ≡ id) × (¬ IsIncomplete u)
  pub unique :
      (s : S)
      → IsValid s
      → (f : Field) (i j : String) (u v : User) → users s i ≡ some u
      → users s j ≡ some v
      → value f u ≡ value f v
      → value f u ≢ ""
      → i ≡ j
  pub get-outcome :
      (s : S) → IsValid s → (id : String) → id ≢ "" → (st.get id s).0 ≡ found (users s id)
  pub get-empty : (s : S) → (st.get "" s).0 ≡ panic
  pub get-users : (s : S) → IsValid s → (id : String) → SameUsers (users (st.get id s).1) (users s)
  pub get-IsValid : (s : S) → IsValid s → (id : String) → IsValid (st.get id s).1
  pub finding :
      (s : S) → IsValid s → (f : Field) (key : String) → Finding (users s) f key (find st f key s).0
  pub find-users :
      (s : S)
      → IsValid s
      → (f : Field) (key : String) → SameUsers (users (find st f key s).1) (users s)
  pub find-IsValid : (s : S) → IsValid s → (f : Field) (key : String) → IsValid (find st f key s).1
  pub saving :
      (s : S)
      → IsValid s
      → (u : User) → IsStorable u
      → Saving g (users s) u (st.save u s).0 (users (st.save u s).1)
  pub save-IsValid : (s : S) → IsValid s → (u : User) → IsStorable u → IsValid (st.save u s).1

-- What a search that succeeds says of the user, and one that fails of its error.
pub found_by :
    {d : Directory} {f : Field} {key : String} {r : Outcome User} (u : User)
    → Finding d f key r
    → r ≡ ok u
    → (d u.id ≡ some u) × (value f u ≡ key) × (key ≢ "")
found_by {d} {f} {key} u (one v e at same filled) h =
    let eq : v ≡ u = cc in
    (subst (λ (x : User). d x.id ≡ some x) eq at, subst (λ x. value f x ≡ key) eq same, filled)
found_by u (missing e _) h = cc

pub failed_search :
    {d : Directory} {f : Field} {key : String} {r : Outcome User}
    → Finding d f key r
    → ((u : User) → r ≢ ok u)
    → r ≡ err (known user_not_found)
failed_search (one v e _ _ _) h = absurd (h v e)
failed_search (missing e _) h = e
