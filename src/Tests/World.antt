-- ===== src/Tests/World.antt =====
-- Concrete dependencies: the in-memory storage, ids and tokens counted by strokes, a hash that
-- keeps the password behind a mark, and events written as their first field.
use Prim.Native.String.{◌∷◌, ◌++◌}
use userd.Common.{ℕ, zero, suc, String, ◌≡◌, refl, true, false, ◌==◌}
use userd.Common.Int.{pos}
use userd.Errors.Instance.{errgo}
use userd.User.{User}
use userd.Exec.{ok}
use userd.Storage.Interface.{UserStorage}
use userd.Storage.KeyValue.{user_storage}
use userd.Storage.Local.{LocalState}
use userd.Storage.Local.Laws.{
  local_storage, new_local_storage, local-IsLawful, new_local_storage-empty,
}
use userd.Storage.Directory.{IsDirectory}
use userd.Storage.Contract.{keyvalue-IsDirectory, empty-IsValid}
use userd.Service.Backends.{IdFactory, PasswordHasher, Config, Dependencies, World, Entry}
use userd.Tests.Codec.{codec, encode}

unfoldable pub strokes : String → ℕ → String
strokes start zero = start
strokes start (suc n) = "i" ∷ strokes start n

abbrev pub id_factory : IdFactory ℕ
unfolding strokes
id_factory = record {
  new_user_id = λ n. (strokes "u" n, suc n);
  new_reset_password_token = λ n. (strokes "t" n, suc n);
}

abbrev pub hasher : PasswordHasher ℕ
hasher = record {
  needs_rehash = λ hash. ok false;
  hash = λ password n. (ok ("#" ++ password), suc n);
  verify = λ password hash. hash == ("#" ++ password);
}

abbrev pub storage : UserStorage LocalState
unfolding user_storage
storage = user_storage errgo codec local_storage

abbrev pub deps : Dependencies LocalState ℕ ℕ
deps = record {
  id_factory = id_factory;
  hasher = hasher;
  user_storage = user_storage errgo codec local_storage;
  marshal_entry = λ e. ok "event";
}

abbrev pub start : World LocalState ℕ ℕ
start = record {
  store = new_local_storage.1;
  ids = 0;
  salt = 0;
  clock = 100;
  tasks = mathlib.Core.List.[];
}

abbrev pub config : Config
config = record {
  auth_email_must_be_verified = true;
  max_items = pos 2;
  reset_password_expire_time = pos 60;
}

abbrev pub directory : IsDirectory errgo deps.user_storage
directory = keyvalue-IsDirectory errgo codec local_storage local-IsLawful

pub storable : (u : User) → directory.IsStorable u
unfolding user_storage
storable u = (encode u, refl)

pub marshals : (e : Entry) → (bytes : String) × (deps.marshal_entry e ≡ ok bytes)
marshals e = ("event", refl)

pub start-IsValid : directory.IsValid start.store
unfolding user_storage local-IsLawful
start-IsValid =
    empty-IsValid errgo codec local_storage local-IsLawful start.store new_local_storage-empty
