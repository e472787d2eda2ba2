-- ===== src/Hasher/Laws.antt =====
-- The hasher of service/hasher/bcrypt.go, where bcrypt does what it documents.
use userd.Common.{String, ◌≡◌, ◌≢◌, refl, ap, true, false, inl, inr, Bool-cases, arith}
use mathlib.Core.Path.{subst}
use userd.Common.Int.{ℤ, pos, negsuc, ltb_ℤ}
use userd.Exec.{Outcome, ok, err, panic, pure, abort, handle}
use userd.Service.Journeys.{IsStable}
use userd.Hasher.{
  Bcrypt, BcryptHasher, new_bcrypt_hasher, hash, verify, needs_rehash, bcrypt_hasher,
}

-- What the program relies on in bcrypt: the default is in bounds; what was generated of a password
-- matches it, and has the cost that was asked for, where that is in bounds.
pub record IsBcrypt {R : Type 0} (bcrypt : Bcrypt R) : Type 0 where
  pub default_least : ltb_ℤ bcrypt.default_cost bcrypt.min_cost ≡ false
  pub default_most : ltb_ℤ bcrypt.max_cost bcrypt.default_cost ≡ false
  pub matches :
      (password : String) (cost : ℤ) (salt : R) (h : String)
      → (bcrypt.generate_from_password password cost salt).0 ≡ ok h
      → bcrypt.compare_hash_and_password h password ≡ ok tt
  pub keeps_cost :
      (password : String) (cost : ℤ) (salt : R) (h : String)
      → ltb_ℤ cost bcrypt.min_cost ≡ false
      → ltb_ℤ bcrypt.max_cost cost ≡ false
      → (bcrypt.generate_from_password password cost salt).0 ≡ ok h
      → bcrypt.cost_of h ≡ ok cost

ltb_ℤ-irrefl : (c : ℤ) → ltb_ℤ c c ≡ false
ltb_ℤ-irrefl (pos n) = ground arith
ltb_ℤ-irrefl (negsuc n) = ground arith

module _ {R : Type 0} (bcrypt : Bcrypt R) (documented : IsBcrypt bcrypt) where
  -- A cost within bcrypt's bounds.
  abbrev pub IsCost : ℤ → Type 0
  IsCost c = (ltb_ℤ c bcrypt.min_cost ≡ false) × (ltb_ℤ bcrypt.max_cost c ≡ false)

  made-IsCost :
      (given : ℤ) (bh : BcryptHasher) → new_bcrypt_hasher bcrypt given ≡ ok bh → IsCost bh.cost
  unfolding new_bcrypt_hasher
  made-IsCost given bh made = elim (Bool-cases (ltb_ℤ given bcrypt.min_cost)) [
    | inl low ↦
        subst IsCost (same_cost (rw (low, documented.default_most) at made))
          (documented.default_least, documented.default_most)
    | inr enough ↦ elim (Bool-cases (ltb_ℤ bcrypt.max_cost given)) [
      | inl high ↦ absurd (not_made (rw (enough, high) at made))
      | inr fits ↦ subst IsCost (same_cost (rw (enough, fits) at made)) (enough, fits)
    ]
  ]
    where
      not_made : panic ≢ ok bh
      not_made e = cc

      same_cost : {c : ℤ} → ok (record { cost = c }) ≡ ok bh → c ≡ bh.cost
      same_cost e = cc

  generated :
      (h : String) (r : Outcome String × R)
      → (handle r.0 (λ byte_hash. pure byte_hash) (λ e. abort) r.1).0 ≡ ok h
      → r.0 ≡ ok h
  generated h (ok a, salt) e = e
  generated h (err x, salt) e = cc
  generated h (panic, salt) e = cc

  -- Where NewBcryptHasher made the hasher: what Hash makes of a password verifies that password, and
  -- needs no new hash.
  pub verify-hash :
      (given : ℤ) (bh : BcryptHasher) (password : String) (salt : R) (h : String)
      → new_bcrypt_hasher bcrypt given ≡ ok bh
      → (hash bcrypt bh password salt).0 ≡ ok h
      → (verify bcrypt bh password h ≡ true) × (needs_rehash bcrypt bh h ≡ ok false)
  unfolding hash verify needs_rehash
  verify-hash given bh password salt h made hashed =
      let e = generated h (bcrypt.generate_from_password password bh.cost salt) hashed in
      let (least, most) = made-IsCost given bh made in
      (
        rw (verify, documented.matches password bh.cost salt h e) refl,
        rw (needs_rehash, documented.keeps_cost password bh.cost salt h least most e)
            (ap ok (ltb_ℤ-irrefl bh.cost)),
      )

  -- The hasher as the service takes it.
  pub bcrypt_hasher-IsStable :
      (given : ℤ) (bh : BcryptHasher)
      → new_bcrypt_hasher bcrypt given ≡ ok bh
      → IsStable (bcrypt_hasher bcrypt bh)
  unfolding bcrypt_hasher
  bcrypt_hasher-IsStable given bh made password salt h hashed =
      verify-hash given bh password salt h made hashed
