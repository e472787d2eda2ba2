-- ===== src/Hasher.antt =====
-- service/hasher/bcrypt.go: the hasher of passwords over bcrypt, which is a parameter with the state
-- R of its randomness.
pub mod Laws
use userd.Common.{String, Bool, true, false, if◌then◌else◌}
use userd.Common.Int.{ℤ, ltb_ℤ}
use userd.Exec.{Outcome, ok, err, panic, Exec, pure, abort, attempt}
use userd.Service.Backends.{PasswordHasher}

pub record Bcrypt (R : Type 0) : Type 0 where
  pub min_cost : ℤ
  pub max_cost : ℤ
  pub default_cost : ℤ
  pub generate_from_password : (password : String) → ℤ → Exec R String
  pub compare_hash_and_password : (password_hash password : String) → Outcome (Unit {0})
  pub cost_of : (password_hash : String) → Outcome ℤ

pub record BcryptHasher : Type 0 where
  pub cost : ℤ

module _ {R : Type 0} (bcrypt : Bcrypt R) where
  unfoldable pub new_bcrypt_hasher : ℤ → Outcome BcryptHasher
  new_bcrypt_hasher given =
      let cost = if ltb_ℤ given bcrypt.min_cost then bcrypt.default_cost else given in
      if ltb_ℤ bcrypt.max_cost cost then panic else ok (record { cost = cost })

  unfoldable pub hash : BcryptHasher → String → Exec R String
  hash bh password =
      attempt (bcrypt.generate_from_password password bh.cost) (λ byte_hash. pure byte_hash)
        (λ e. abort)

  unfoldable pub verify : BcryptHasher → (password password_hash : String) → Bool
  verify bh password password_hash =
      elim (bcrypt.compare_hash_and_password password_hash password) [
        | ok _ ↦ true
        | err e ↦ false
        | panic ↦ false
      ]

  unfoldable pub needs_rehash : BcryptHasher → String → Outcome Bool
  needs_rehash bh password_hash = elim (bcrypt.cost_of password_hash) [
    | ok cost ↦ ok (ltb_ℤ cost bh.cost)
    | err e ↦ panic
    | panic ↦ panic
  ]

  -- The hasher as the service takes it.
  unfoldable pub bcrypt_hasher : BcryptHasher → PasswordHasher R
  bcrypt_hasher bh = record { needs_rehash = needs_rehash bh; hash = hash bh; verify = verify bh }
