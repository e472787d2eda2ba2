-- ===== src/Storage/Etcd.antt =====
-- service/storage/keyvalue_etcd.go: the driver that keeps all in etcd, under paths. The client library
-- go-etcd is a parameter, over the state S of the cluster. The set-up of the client (its logger, its
-- peers, the log of curl commands) is left out.
pub mod Laws
use Prim.Native.String.{◌++◌}
use userd.Common.{ℕ, String, Bool, Option, none, some, nat_eq, if◌then◌else◌}
use userd.Errors.{ErrGo, mask_all}
use userd.Exec.{Outcome, Exec, pure, lift, map_error, ◌>>=◌, ◌>>◌}
use userd.Storage.Interface.{KeyValueIndex, KeyValueStorageDriver, KeyValueStorage}
use userd.Storage.KeyValue.{new_key_value_storage}

-- What is used of a raw response: its status, and the node's value that Unmarshal reads in it.
pub record RawResponse : Type 0 where
  pub status_code : ℕ
  pub unmarshal : Outcome String

-- The calls of the client that the driver makes. Their responses, but that of RawGet, are dropped.
pub record EtcdClient (S : Type 0) : Type 0 where
  pub client_set : (key value : String) (ttl : ℕ) → Exec S (Unit {0})
  pub client_create : (key value : String) (ttl : ℕ) → Exec S (Unit {0})
  pub client_delete : (key : String) → Exec S (Unit {0})
  pub raw_get : (key : String) → Exec S RawResponse

unfoldable pub etcd_key : (dir index key : String) → String
etcd_key dir index key = (((dir ++ "/") ++ index) ++ "/") ++ key

abbrev pub user_data_name : String
user_data_name = "user"

pub record EtcdStorageDriver (S : Type 0) : Type 0 where
  pub client : EtcdClient S
  pub dir : String
  pub ttl : ℕ

module _ (g : ErrGo) {S : Type 0} (d : EtcdStorageDriver S) where
  unfoldable pub path : (index name : String) → String
  unfolding etcd_key
  path index name = etcd_key d.dir index name

  unfoldable pub etcd_set : String → String → Exec S (Unit {0})
  unfolding path
  etcd_set user_id json =
      map_error (mask_all g) (d.client.client_set (path user_data_name user_id) json d.ttl)

  unfoldable pub create : String → String → Exec S (Unit {0})
  create key value = map_error (mask_all g) (d.client.client_create key value d.ttl)

  -- A response with the status 404 says that there is no such key.
  unfoldable pub read_response : RawResponse → Exec S (Option String)
  read_response raw =
      if nat_eq raw.status_code 404
      then pure none
      else do value ← map_error (mask_all g) (lift raw.unmarshal); pure (some value)

  unfoldable pub lookup_index : (index key : String) → Exec S (Option String)
  unfolding path read_response
  lookup_index index key = do
    raw ← map_error (mask_all g) (d.client.raw_get (path index key))
    read_response raw

  unfoldable pub remove_index : (index key : String) → Exec S (Unit {0})
  unfolding path
  remove_index index key = map_error (mask_all g) (d.client.client_delete (path index key))

  unfoldable pub etcd_lookup : String → Exec S (Option String)
  unfolding lookup_index
  etcd_lookup user_id = map_error (mask_all g) (lookup_index user_data_name user_id)

  -- (s *EtcdIndex) Put, Remove and Lookup, of the index with a name.
  unfoldable pub etcd_index_put : (name key user_id : String) → Exec S (Unit {0})
  unfolding path create
  etcd_index_put name key user_id = map_error (mask_all g) (create (path name key) user_id)

  unfoldable pub etcd_index_remove : (name key : String) → Exec S (Unit {0})
  unfolding remove_index
  etcd_index_remove name key = map_error (mask_all g) (remove_index name key)

  unfoldable pub etcd_index_lookup : (name key : String) → Exec S (Option String)
  unfolding lookup_index
  etcd_index_lookup name key = map_error (mask_all g) (lookup_index name key)

  unfoldable pub etcd_index : String → KeyValueIndex S
  unfolding etcd_index_put etcd_index_remove etcd_index_lookup
  etcd_index name = record {
    put = etcd_index_put name;
    remove = etcd_index_remove name;
    lookup = etcd_index_lookup name;
  }

  unfoldable pub etcd_driver : KeyValueStorageDriver S
  unfolding etcd_set etcd_lookup etcd_index
  etcd_driver = record {
    set = etcd_set;
    lookup = etcd_lookup;
    index = λ name s. (etcd_index name, s);
  }

  unfoldable pub new_etcd_storage : S → KeyValueStorage S × S
  unfolding etcd_driver new_key_value_storage
  new_etcd_storage s = new_key_value_storage etcd_driver s
