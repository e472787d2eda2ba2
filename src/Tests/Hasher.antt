-- ===== src/Tests/Hasher.antt =====
-- A hash that keeps the password behind a mark, as bcrypt with one cost in bounds, and its hasher.
use Prim.Native.String.{◌++◌}
use userd.Common.{
  ℕ, suc, String, ◌≡◌, refl, sym, ap, true, false, ◌==◌, if◌then◌else◌, eq_iff, arith,
}
use userd.Common.Int.{ℤ, pos, negsuc, ltb_ℤ}
use userd.Errors.{foreign}
use userd.Exec.{Outcome, ok, err}
use userd.Hasher.{Bcrypt, new_bcrypt_hasher, hash, verify, needs_rehash}
use userd.Hasher.Laws.{IsBcrypt, verify-hash}

abbrev pub bcrypt : Bcrypt ℕ
bcrypt = record {
  min_cost = pos 4;
  max_cost = pos 4;
  default_cost = pos 4;
  generate_from_password = λ password cost salt. (ok ("#" ++ password), suc salt);
  compare_hash_and_password =
      λ h password. if h == ("#" ++ password) then ok tt else err (foreign 1);
  cost_of = λ h. ok (pos 4);
}

one_cost :
    (c : ℤ)
    → ltb_ℤ c (pos 4) ≡ false
    → ltb_ℤ (pos 4) c ≡ false
    → Path (Outcome ℤ) (ok (pos 4)) (ok c)
one_cost (pos n) least most = let n_eq : n ≡ 4 = ground arith in ap (λ m. ok (pos m)) (sym n_eq)
one_cost (negsuc n) least most = cc

matches :
    (password h : String)
    → Path (Outcome String) (ok ("#" ++ password)) (ok h)
    → bcrypt.compare_hash_and_password h password ≡ ok tt
matches password h e =
    let same : ("#" ++ password) ≡ h = cc in rw ((eq_iff h ("#" ++ password)).1 (sym same)) refl

pub bcrypt-IsBcrypt : IsBcrypt bcrypt
bcrypt-IsBcrypt = record {
  default_least = refl;
  default_most = refl;
  matches = λ password cost salt h e. matches password h e;
  keeps_cost = λ password cost salt h least most e. one_cost cost least most;
}

verify-hash_example :
    (verify bcrypt (record { cost = pos 4 }) "secret" "#secret" ≡ true)
    × (needs_rehash bcrypt (record { cost = pos 4 }) "#secret" ≡ ok false)
unfolding new_bcrypt_hasher hash
verify-hash_example =
    verify-hash bcrypt bcrypt-IsBcrypt (pos 0) (record { cost = pos 4 }) "secret" 0 "#secret" refl
      refl
