-- ===== src/Service/Backends.antt =====
-- service/backends.go and service/backend_wrapper.go: the interfaces that the service takes, each
-- over the state of its implementation, the configuration, and the world that a request changes.
use userd.Common.{◌+◌, String, Bool, List, [], ◌∷◌, ◌++◌, Option, ltb, if◌then◌else◌}
use userd.Common.Int.{ℤ, pos, negsuc, is_not_positive}
use userd.Errors.{known, invalid_config}
use userd.User.{Time}
use userd.Exec.{Outcome, ok, err, panic, Exec}
use userd.Storage.Interface.{UserStorage}

pub record IdFactory (F : Type 0) : Type 0 where
  pub new_user_id : F → String × F
  pub new_reset_password_token : F → String × F

-- `Hash` draws a salt and may panic; `Verify` and `NeedsRehash` only read the hash.
pub record PasswordHasher (H : Type 0) : Type 0 where
  pub needs_rehash : String → Outcome Bool
  pub hash : String → Exec H String
  pub verify : (password password_hash : String) → Bool

-- A value of an event's `map[string]interface{}`.
pub data Datum : Type 0 where
  text : String → Datum
  instant : Option Time → Datum

abbrev pub Entry : Type 0
Entry = List (String × Datum)

-- The goroutines that `logEvent` starts, and that have not run yet.
pub data Task : Type 0 where
  publish_stream publish_collector : (tag bytes : String) → Task

pub record Config : Type 0 where
  pub auth_email_must_be_verified : Bool
  pub max_items : ℤ
  -- In nanoseconds.
  pub reset_password_expire_time : ℤ

-- The message of `newInvalidConfig` is made by `errgo.Notef`, and stands in the panic alone.
unfoldable pub validate_values : Config → Outcome (Unit {0})
validate_values c =
    if is_not_positive c.max_items
    then err (known invalid_config)
    else if is_not_positive c.reset_password_expire_time
    then err (known invalid_config)
    else ok tt

unfoldable pub validate : Config → Outcome (Unit {0})
validate c = elim (validate_values c) [ err e ↦ panic | ok a ↦ ok a | panic ↦ panic ]

-- UserStorageWrapper: with `logUserStorageCalls` false, each method is the wrapped one.
unfoldable pub user_storage_wrapper : {S : Type 0} → UserStorage S → UserStorage S
user_storage_wrapper w = record {
  save = λ user. w.save user;
  get = λ user_id. w.get user_id;
  find_by_login_name = λ login_name. w.find_by_login_name login_name;
  find_by_email = λ email. w.find_by_email email;
  find_by_reset_password_token = λ token. w.find_by_reset_password_token token;
}

pub record Dependencies (S F H : Type 0) : Type 0 where
  pub id_factory : IdFactory F
  pub hasher : PasswordHasher H
  pub user_storage : UserStorage S
  -- json.Marshal at an event's entry
  pub marshal_entry : Entry → Outcome String

-- What a request reads and writes: the states of the storage, of the id factory and of the
-- hasher's randomness, the time, and the goroutines started so far, oldest first.
pub record World (S F H : Type 0) : Type 0 where
  pub store : S
  pub ids : F
  pub salt : H
  pub clock : Time
  pub tasks : List Task

-- t.After(issued.Add(d))
unfoldable pub after_by : (t issued : Time) → ℤ → Bool
after_by t issued (pos d) = ltb (issued + d) t
after_by t issued (negsuc d) = ltb issued (t + d + 1)

module _ {S F H : Type 0} where
  -- The methods of each dependency, in the world.
  unfoldable pub on_store : {A : Type 0} → Exec S A → Exec (World S F H) A
  on_store m w = let (r, s) = m w.store in (r, record w { store = s })

  unfoldable pub on_salt : {A : Type 0} → Exec H A → Exec (World S F H) A
  on_salt m w = let (r, s) = m w.salt in (r, record w { salt = s })

  unfoldable pub on_ids : (F → String × F) → Exec (World S F H) String
  on_ids m w = let (id, f) = m w.ids in (ok id, record w { ids = f })

  -- time.Now()
  unfoldable pub now : Exec (World S F H) Time
  now w = (ok w.clock, w)

  -- The two `go` statements of `logEvent`.
  unfoldable pub spawn : (tag bytes : String) → Exec (World S F H) (Unit {0})
  spawn tag bytes w = (
    ok tt,
    record w { tasks = w.tasks ++ (publish_stream tag bytes ∷ publish_collector tag bytes ∷ []) },
  )
