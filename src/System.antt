-- ===== src/System.antt =====
-- main.go: the server that the flags start by default, with the in-memory storage, any id factory and
-- any hasher; what holds of it whatever requests it serves. encoding/json at a user is a parameter.
use userd.Common.{String, ◌≡◌, ◌≢◌, sym, ap, ◌∙◌, text_cases, inl, inr, List, Option, none, some}
use userd.Errors.{ErrGo}
use userd.User.{Time, User}
use userd.Exec.{Outcome, ok, panic, Exec}
use userd.Storage.Interface.{UserCodec, Field, value}
use userd.Storage.KeyValue.{get, user_storage}
use userd.Storage.Local.{LocalState}
use userd.Storage.Local.Laws.{
  local_storage, new_local_storage, local-IsLawful, new_local_storage-empty,
}
use userd.Storage.Directory.{IsDirectory, IsIncomplete, found}
use userd.Storage.Contract.{keyvalue-IsDirectory, empty-IsValid}
use userd.Service.Backends.{
  Config, Dependencies, World, Entry, IdFactory, PasswordHasher, user_storage_wrapper,
}
use userd.Api.Writer.{Call}
use userd.Api.History.{Reached, Reached-IsValid}

module _ (g : ErrGo) (json : UserCodec) {F H : Type 0} (id_factory : IdFactory F)
    (hasher : PasswordHasher H) (marshal_entry : Entry → Outcome String) where
  -- `Dependencies` with UserStorage() at "memory", as NewUserService wraps them.
  unfoldable pub memory_dependencies : Dependencies LocalState F H
  memory_dependencies = record {
    id_factory = id_factory;
    hasher = hasher;
    user_storage = user_storage_wrapper (user_storage g json local_storage);
    marshal_entry = marshal_entry;
  }

  -- The process when it starts to listen.
  abbrev pub at_start : F → H → Time → World LocalState F H
  at_start ids salt clock = record {
    store = new_local_storage.1;
    ids = ids;
    salt = salt;
    clock = clock;
    tasks = mathlib.Core.List.[];
  }

  abbrev pub memory_directory : IsDirectory g memory_dependencies.user_storage
  unfolding memory_dependencies user_storage_wrapper
  memory_directory = keyvalue-IsDirectory g json local_storage local-IsLawful

  at_start-IsValid :
      (ids : F) (salt : H) (clock : Time) → memory_directory.IsValid (at_start ids salt clock).store
  unfolding memory_dependencies user_storage_wrapper user_storage local-IsLawful
  at_start-IsValid ids salt clock =
      empty-IsValid g json local_storage local-IsLawful new_local_storage.1 new_local_storage-empty

  -- What Get finds is a user of the directory.
  got :
      (s : LocalState) (id : String) (u : User)
      → memory_directory.IsValid s
      → (get g json local_storage id s).0 ≡ ok u
      → memory_directory.users s id ≡ some u
  unfolding memory_dependencies user_storage_wrapper user_storage
  got s id u valid e = elim (text_cases id "") [
    | inl (_, empty) ↦ absurd (
        panics (
          sym (ap (λ x. (get g json local_storage x s).0) empty ∙ memory_directory.get-empty s)
          ∙ e))
    | inr (_, filled) ↦ found_some (sym (memory_directory.get-outcome s valid id filled) ∙ e)
  ]
    where
      panics : {u : User} → panic ≢ ok u
      panics h = cc

      found_some : {o : Option User} → found o ≡ ok u → o ≡ some u
      found_some {o = none} h = cc
      found_some {o = some v} h = cc

  module _ (marshal_item : (tag : String) → Time → (message : String) → Outcome String)
      (encode_item : Outcome String → Exec (List Call) (Unit {0})) (config : Config)
      (storable : (u : User) → (text : String) × (json.marshal u ≡ ok text))
      (marshals : (e : Entry) → (bytes : String) × (marshal_entry e ≡ ok bytes)) where
    -- Whatever requests the server with the in-memory storage has served since it started, each begun
    -- after the one before had ended: a user that Get returns for an id has that id, an email and a
    -- login name; and two ids for which Get returns users that share an email, a login name or a reset
    -- token that is not empty are the same id. That each user and each event can be encoded is
    -- assumed; requests at the same time are not covered.
    pub Reached-IsUnique :
        (ids : F) (salt : H) (clock : Time) (w : World LocalState F H)
        → Reached g memory_dependencies memory_directory marshal_item encode_item config
            (at_start ids salt clock)
            w
        → ((id : String) (u : User)
            → (get g json local_storage id w.store).0 ≡ ok u
            → (u.id ≡ id) × (¬ IsIncomplete u))
          × ((f : Field) (i j : String) (u v : User)
              → (get g json local_storage i w.store).0 ≡ ok u
              → (get g json local_storage j w.store).0 ≡ ok v
              → value f u ≡ value f v
              → value f u ≢ ""
              → i ≡ j)
    unfolding memory_dependencies user_storage_wrapper user_storage
    Reached-IsUnique ids salt clock w reached =
        let valid =
          Reached-IsValid g memory_dependencies memory_directory marshal_item encode_item config
            storable marshals (at_start-IsValid ids salt clock) reached in
        (
          (λ id u e. memory_directory.well_formed w.store valid id u (got w.store id u valid e)),
          (λ f i j u v e e'.
              memory_directory.unique w.store valid f i j u v (got w.store i u valid e)
                (got w.store j v valid e')),
        )
