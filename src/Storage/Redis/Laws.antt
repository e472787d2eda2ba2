-- ===== src/Storage/Redis/Laws.antt =====
-- The Redis storage of service/storage/keyvalue_redis.go over a server that stores what it is told,
-- whose table of texts is read as the users and the three indices.
use Prim.Native.String.{◌++◌}
use userd.Common.{ℕ, String, ◌≡◌, ap, ◌∙◌, true, none, some, inl, inr, Option-cases}
use userd.Common.Table.{Table, insert, erase}
use userd.Errors.{Error, ErrGo}
use userd.Exec.{ok, err}
use userd.User.{User}
use userd.Storage.Interface.{
  UserCodec, KeyValueStorage, Field, login_names, emails, reset_password_tokens, index_of,
}
use userd.Storage.KeyValue.{new_key_value_storage, save}
use userd.Storage.Tables.{Tables, tables_storage, entry_index}
use userd.Storage.Keys.{
  Space, prefix, prefix_eq, tables_of, table_at, insert-table_at, erase-table_at, same_tables,
}
use userd.Storage.Refinement.{IndexFollows, IsLawful, save-Follows}
use userd.Storage.Redis.{
  Redigo, RedisIndex, redis_put, redis_remove, redis_lookup, redis_index, redis_driver,
  new_redis_storage,
}

-- The prefixes that the driver puts before its keys, each behind its first letter.
abbrev behind : Space → String
behind none = "ser:"
behind (some login_names) = "ogin_name:"
behind (some emails) = "mails:"
behind (some reset_password_tokens) = "eset_password_token:"

abbrev pub server_key : Space → String → String
server_key a key = prefix behind a ++ key

-- What the program relies on in Redis: the texts under the keys, SET, DEL and GET without an error,
-- and the error ErrNil for a key that is not there.
pub record IsKeyed {S : Type 0} (pool : Redigo S) : Type 0 where
  pub contents : S → Table
  pub set_replies :
      (key value : String) (s : S) → (reply : String) × ((pool.do_set key value s).0 ≡ ok reply)
  pub set_contents :
      (key value : String) (s : S)
      → contents (pool.do_set key value s).1 ≡ insert key value (contents s)
  pub del_replies : (key : String) (s : S) → (n : ℕ) × ((pool.do_del key s).0 ≡ ok n)
  pub del_contents :
      (key : String) (s : S) → contents (pool.do_del key s).1 ≡ erase key (contents s)
  pub get_some :
      (key value : String) (s : S) → contents s key ≡ some value → (pool.do_get key s).0 ≡ ok value
  pub get_none :
      (key : String) (s : S)
      → contents s key ≡ none
      → (e : Error) × ((pool.do_get key s).0 ≡ err e) × (pool.is_nil e ≡ true)
  pub get_contents : (key : String) (s : S) → contents (pool.do_get key s).1 ≡ contents s

module _ (g : ErrGo) {S : Type 0} (pool : Redigo S) (keyed : IsKeyed pool) where
  abbrev pub view : S → Tables
  view s = tables_of server_key (keyed.contents s)

  abbrev space : Space → RedisIndex
  space a = record { key = λ key. server_key a key }

  pub put_lem :
      (a : Space) (key value : String) (s : S)
      → redis_put g pool (space a) key value s ≡ (ok tt, (pool.do_set (server_key a key) value s).1)
  unfolding redis_put
  put_lem a key value s = rw ((keyed.set_replies (server_key a key) value s).1)

  pub remove_lem :
      (a : Space) (key : String) (s : S)
      → redis_remove g pool (space a) key s ≡ (ok tt, (pool.do_del (server_key a key) s).1)
  unfolding redis_remove
  remove_lem a key s = rw ((keyed.del_replies (server_key a key) s).1)

  pub lookup_lem :
      (a : Space) (key : String) (s : S)
      → redis_lookup g pool (space a) key s
        ≡ (ok (table_at server_key (keyed.contents s) a key), (pool.do_get (server_key a key) s).1)
  unfolding redis_lookup
  lookup_lem a key s = elim (Option-cases (keyed.contents s (server_key a key))) [
    | inl missing ↦
        let (e, reply, is_nil) = keyed.get_none (server_key a key) s missing in
        rw (reply, is_nil, missing)
    | inr (value, there) ↦ rw (keyed.get_some (server_key a key) value s there, there)
  ]

  pub looked :
      (a : Space) (key : String) (s : S) → view (redis_lookup g pool (space a) key s).1 ≡ view s
  looked a key s =
      ap (λ r. view r.1) (lookup_lem a key s)
      ∙ ap (tables_of server_key) (keyed.get_contents (server_key a key) s)

  field-Follows :
      (f : Field) → IndexFollows view (redis_index g pool (space (some f))) (entry_index f)
  unfolding redis_index
  field-Follows f = record {
    put = λ key id. record {
      outcome = λ s. ap (λ r. r.0) (put_lem (some f) key id s);
      state = λ s.
          ap (λ r. view r.1) (put_lem (some f) key id s)
          ∙ ap (tables_of server_key) (keyed.set_contents (server_key (some f) key) id s)
          ∙ same_tables
              (insert-table_at server_key (prefix_eq behind) (some f) none key id
                (keyed.contents s))
              (λ h.
                insert-table_at server_key (prefix_eq behind) (some f) (some h) key id
                  (keyed.contents s));
    };
    remove = λ key. record {
      outcome = λ s. ap (λ r. r.0) (remove_lem (some f) key s);
      state = λ s.
          ap (λ r. view r.1) (remove_lem (some f) key s)
          ∙ ap (tables_of server_key) (keyed.del_contents (server_key (some f) key) s)
          ∙ same_tables
              (erase-table_at server_key (prefix_eq behind) (some f) none key (keyed.contents s))
              (λ h.
                erase-table_at server_key (prefix_eq behind) (some f) (some h) key
                  (keyed.contents s));
    };
    lookup = λ key. record {
      outcome = λ s. ap (λ r. r.0) (lookup_lem (some f) key s);
      state = looked (some f) key;
    };
  }

  -- The storage object of NewRedisStorage.
  abbrev pub redis_storage : S → KeyValueStorage S
  redis_storage s = (new_redis_storage g pool s).0

  pub index-Follows :
      (s : S) (f : Field)
      → IndexFollows view (index_of (redis_storage s) f) (index_of tables_storage f)
  unfolding new_redis_storage new_key_value_storage redis_driver
  index-Follows s login_names = field-Follows login_names
  index-Follows s emails = field-Follows emails
  index-Follows s reset_password_tokens = field-Follows reset_password_tokens

  -- The storage of NewRedisStorage over a server that stores what it is told is lawful.
  unfoldable pub redis-IsLawful : (s : S) → IsLawful (redis_storage s)
  unfolding new_redis_storage new_key_value_storage redis_driver
  redis-IsLawful s = record {
    view = view;
    set = λ id text. record {
      outcome = λ s. ap (λ r. r.0) (put_lem none id text s);
      state = λ s.
          ap (λ r. view r.1) (put_lem none id text s)
          ∙ ap (tables_of server_key) (keyed.set_contents (server_key none id) text s)
          ∙ same_tables
              (insert-table_at server_key (prefix_eq behind) none none id text (keyed.contents s))
              (λ h.
                insert-table_at server_key (prefix_eq behind) none (some h) id text
                  (keyed.contents s));
    };
    lookup = λ id. record {
      outcome = λ s. ap (λ r. r.0) (lookup_lem none id s);
      state = looked none id;
    };
    index = index-Follows s;
  }

  -- Over a server that stores what it is told, Save of the Redis storage has the outcome that it has
  -- over the plain tables that the server's keys stand for, and leaves keys that stand for the
  -- tables that it leaves.
  pub redis_save-Follows :
      (json : UserCodec) (s₀ : S) (u : User) (s : S)
      → ((save g json (redis_storage s₀) u s).0 ≡ (save g json tables_storage u (view s)).0)
        × (view (save g json (redis_storage s₀) u s).1 ≡ (save g json tables_storage u (view s)).1)
  unfolding redis-IsLawful
  redis_save-Follows json s₀ u s =
      let f = save-Follows g json (redis_storage s₀) (redis-IsLawful s₀) u in
      (f.outcome s, f.state s)
