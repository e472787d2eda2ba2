-- ===== src/Startup/Redis.antt =====
-- redis.go: the flags of Redis, the pool that the storage and the event stream share, and how the pool
-- makes a connection. redigo is a parameter: dialling, a command on a connection, and closing it.
pub mod Laws
use Prim.Native.Nat.{◌%◌, ◌^◌}
use Prim.Native.String.{slice, len}
use text.Mathlib.Text.{starts_with}
use userd.Common.{◌*◌, String, ◌==◌, Option, none, some, if◌then◌else◌}
use userd.Common.Int.{ℤ, pos}
use userd.Exec.{Exec, pure, fail, ignore, attempt, ◌>>=◌, ◌>>◌}
use userd.Startup.Words.{signed64, word64}

pub record RedisFlags : Type 0 where
  pub address : String
  pub auth : String
  pub max_idle : ℤ
  pub max_active : ℤ
  -- In seconds.
  pub idle : ℤ

-- The values that the flags have where they are not given.
abbrev pub default_redis_flags : RedisFlags
default_redis_flags = record {
  address = "localhost:6370";
  auth = "";
  max_idle = pos 20;
  max_active = pos 20;
  idle = pos (10 * 60);
}

-- redigo, over the state N of the network, with its connections C.
pub record Redigo (N C : Type 0) : Type 0 where
  pub dial : (network address : String) → Exec N C
  pub do_command : C → (command argument : String) → Exec N (Unit {0})
  pub close : C → Exec N (Unit {0})

-- The address without the protocol that docker puts before it.
unfoldable pub bare_address : String → String
bare_address address =
    if starts_with address "tcp://" then slice address 6 (len address) else address

-- time.Duration(seconds) * time.Second, in nanoseconds; both wrap around.
unfoldable pub duration_of_seconds : ℤ → ℤ
duration_of_seconds seconds = signed64 (word64 seconds * 1_000_000_000 % 2 ^ 64)

module _ {N C : Type 0} (redigo : Redigo N C) where
  -- The function that Dialer returns.
  unfoldable pub dialer : (address password : String) → Exec N C
  dialer address password = do
    c ← redigo.dial "tcp" (bare_address address)
    if password == ""
        then pure c
        else attempt (redigo.do_command c "AUTH" password) (λ _. pure c)
            (λ e. ignore (redigo.close c) >> fail e)

  -- The fields that redis.Pool is given.
  pub record Pool : Type 0 where
    pub max_idle : ℤ
    pub max_active : ℤ
    pub dial : Exec N C
    pub idle_timeout : ℤ

  unfoldable pub new_pool : (address password : String) (max_idle max_active timeout : ℤ) → Pool
  new_pool address password max_idle max_active timeout = record {
    max_idle = max_idle;
    max_active = max_active;
    dial = dialer address password;
    idle_timeout = timeout;
  }

  -- RedisPool, with the variable `pool` as its state.
  unfoldable pub redis_pool : RedisFlags → Option Pool → Pool × Option Pool
  redis_pool flags none =
      let pool =
        new_pool flags.address flags.auth flags.max_idle flags.max_active
          (duration_of_seconds flags.idle) in
      (pool, some pool)
  redis_pool flags (some pool) = (pool, some pool)
