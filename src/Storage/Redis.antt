-- ===== src/Storage/Redis.antt =====
-- service/storage/keyvalue_redis.go: the driver that keeps all in Redis, under keys that begin with the
-- name of the index. The client library redigo is a parameter, over the state S of the server.
pub mod Laws
use Prim.Native.String.{◌++◌}
use userd.Common.{ℕ, String, Bool, Option, none, some, if◌then◌else◌}
use userd.Errors.{Error, ErrGo, mask_all}
use userd.Exec.{Exec, pure, fail, map_error, attempt, ◌>>=◌, ◌>>◌}
use userd.Storage.Interface.{KeyValueIndex, KeyValueStorageDriver, KeyValueStorage}
use userd.Storage.KeyValue.{new_key_value_storage}

-- A command on a connection of the pool, with its reply read as a text or a number, and the error
-- `redis.ErrNil` of a reply that is nil. The pool gives a connection, and takes it back, unseen.
pub record Redigo (S : Type 0) : Type 0 where
  pub do_set : (key value : String) → Exec S String
  pub do_del : (key : String) → Exec S ℕ
  pub do_get : (key : String) → Exec S String
  pub is_nil : Error → Bool

-- An index is the function from its keys to those of the server.
pub record RedisIndex : Type 0 where
  pub key : String → String

module _ (g : ErrGo) {S : Type 0} (pool : Redigo S) where
  -- (index *redisIndex) Put, Remove and Lookup
  unfoldable pub redis_put : RedisIndex → String → String → Exec S (Unit {0})
  redis_put index key value = do map_error (mask_all g) (pool.do_set (index.key key) value); pure tt

  unfoldable pub redis_remove : RedisIndex → String → Exec S (Unit {0})
  redis_remove index key = do map_error (mask_all g) (pool.do_del (index.key key)); pure tt

  unfoldable pub redis_lookup : RedisIndex → String → Exec S (Option String)
  redis_lookup index key =
      attempt (pool.do_get (index.key key)) (λ value. pure (some value))
        (λ err. if pool.is_nil err then pure none else fail (mask_all g err))

  unfoldable pub redis_index : RedisIndex → KeyValueIndex S
  redis_index index = record {
    put = redis_put index;
    remove = redis_remove index;
    lookup = redis_lookup index;
  }

  -- The `Users` of the driver.
  abbrev pub redis_users : RedisIndex
  redis_users = record { key = λ key. "user:" ++ key }

  -- The index that `Index(name)` makes.
  abbrev pub redis_named : String → RedisIndex
  redis_named name = record { key = λ key. (name ++ ":") ++ key }

  unfoldable pub redis_driver : KeyValueStorageDriver S
  redis_driver = record {
    set = redis_put redis_users;
    lookup = redis_lookup redis_users;
    index = λ name s. (redis_index (redis_named name), s);
  }

  unfoldable pub new_redis_storage : S → KeyValueStorage S × S
  new_redis_storage s = new_key_value_storage redis_driver s
