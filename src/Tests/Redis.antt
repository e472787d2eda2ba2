-- ===== src/Tests/Redis.antt =====
-- A Redis server as a table of texts, and the Redis storage over it.
use userd.Common.{zero, String, ◌≡◌, refl, ap, Bool, true, false, Option, none, some}
use userd.Common.Table.{Table, empty, insert, erase}
use userd.Errors.{Error, foreign}
use userd.Errors.Instance.{errgo}
use userd.User.{User, zero_user}
use userd.Exec.{Outcome, ok, err}
use userd.Storage.KeyValue.{save}
use userd.Storage.Tables.{Tables, tables_storage}
use userd.Storage.Redis.{Redigo}
use userd.Storage.Redis.Laws.{IsKeyed, view, redis_storage, redis_save-Follows}
use userd.Tests.Codec.{codec}

-- The reply to GET; redis.ErrNil is the foreign error 0.
abbrev reply : Option String → Outcome String
reply none = err (foreign 0)
reply (some value) = ok value

abbrev is_nil : Error → Bool
is_nil (foreign zero) = true
is_nil _ = false

abbrev server : Redigo Table
server = record {
  do_set = λ key value c. (ok "OK", insert key value c);
  do_del = λ key c. (ok 1, erase key c);
  do_get = λ key c. (reply (c key), c);
  is_nil = is_nil;
}

abbrev server-IsKeyed : IsKeyed server
server-IsKeyed = record {
  contents = λ c. c;
  set_replies = λ key value c. ("OK", refl);
  set_contents = λ key value c. refl;
  del_replies = λ key c. (1, refl);
  del_contents = λ key c. refl;
  get_some = λ key value c e. ap reply e;
  get_none = λ key c e. (foreign 0, ap reply e, refl);
  get_contents = λ key c. refl;
}

abbrev ann : User
ann = record zero_user { id = "1"; email = "ann@x"; login_name = "ann"; login_password_hash = "#a" }

abbrev tables : Tables
tables = view errgo server server-IsKeyed empty

redis_save-Follows_example :
    ((save errgo codec (redis_storage errgo server server-IsKeyed empty) ann empty).0
      ≡ (save errgo codec tables_storage ann tables).0)
    × (view errgo server server-IsKeyed
          (save errgo codec (redis_storage errgo server server-IsKeyed empty) ann empty).1
        ≡ (save errgo codec tables_storage ann tables).1)
redis_save-Follows_example = redis_save-Follows errgo server server-IsKeyed codec empty ann empty
