-- ===== src/Errors/Instance.antt =====
-- A concrete `errgo`: the wrapped error is kept in the number.
use userd.Common.{
  ℕ, zero, suc, ◌≡◌, refl, Bool, false, List, arith, any_of, if◌then◌else◌, Bool-cases, inl, inr,
  String,
}
use userd.Errors.{
  Sentinel, invalid_user_object, user_not_found, login_name_already_taken, email_already_taken,
  invalid_config, invalid_arguments, invalid_credentials, invalid_verification_email,
  reset_password_token_expired, user_email_must_be_verified, text, Error, known, foreign, number,
  err_is, ErrGo,
}

-- The sentinel of a number, counted from the first.
abbrev pub nth : ℕ → Error
nth zero = known invalid_user_object
nth (suc zero) = known user_not_found
nth (suc (suc zero)) = known login_name_already_taken
nth (suc (suc (suc zero))) = known email_already_taken
nth (suc (suc (suc (suc zero)))) = known invalid_config
nth (suc (suc (suc (suc (suc zero))))) = known invalid_arguments
nth (suc (suc (suc (suc (suc (suc zero)))))) = known invalid_credentials
nth (suc (suc (suc (suc (suc (suc (suc zero))))))) = known invalid_verification_email
nth (suc (suc (suc (suc (suc (suc (suc (suc zero)))))))) = known reset_password_token_expired
nth (suc (suc (suc (suc (suc (suc (suc (suc (suc n))))))))) = known user_email_must_be_verified

-- 0 is an error whose cause is hidden, n + 1 one that wraps the n-th declared error.
abbrev pub cause : Error → Error
cause (known s) = known s
cause (foreign zero) = foreign zero
cause (foreign (suc n)) = nth n

abbrev pub wrap : Error → Error
wrap (known s) = foreign (suc (number s))
wrap (foreign n) = foreign n

abbrev pub mask : List (Error → Bool) → Error → Error
mask allow e = if any_of allow (cause e) then wrap (cause e) else foreign zero

abbrev pub message : Error → String
unfolding text
message (known s) = text s
message (foreign n) = "wrapped"

pub nth-number : (s : Sentinel) → nth (number s) ≡ known s
nth-number s = ground arith

pub cause-wrap : (e : Error) → cause (wrap (cause e)) ≡ cause e
cause-wrap (known s) = nth-number s
cause-wrap (foreign zero) = refl
cause-wrap (foreign (suc n)) = ground arith

pub cause-mask :
    (allow : List (Error → Bool)) (e : Error)
    → cause (mask allow e) ≡ (if any_of allow (cause e) then cause e else mask allow e)
cause-mask allow e = elim (Bool-cases (any_of allow (cause e))) [
  | inl shown ↦ rw shown (cause-wrap e)
  | inr hidden ↦ rw hidden
]

pub mask-fresh :
    (allow : List (Error → Bool)) (e : Error) (s : Sentinel) → err_is (mask allow e) s ≡ false
mask-fresh allow e s = ground arith

pub message-known : (s : Sentinel) → message (known s) ≡ text s
unfolding text
message-known s = refl

abbrev pub errgo : ErrGo
errgo = record {
  cause = cause;
  mask = mask;
  message = message;
  cause-known = λ s. refl;
  cause-mask = cause-mask;
  mask-fresh = mask-fresh;
  message-known = message-known;
}
