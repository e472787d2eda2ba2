-- ===== src/Errors.antt =====
-- service/errors.go and service/storage/errors.go: the error values, their tests, and `Mask`.
-- Go compares errors by identity; the program compares them only with the values declared in these
-- two files, so an error is one of those, or some other value known by a number. `errgo` is not
-- part of the repository: the functions used of it are the fields of `ErrGo`, with what its
-- documentation promises. A new pointer is not told apart from the last one with the same content,
-- since the program never compares two wrapped errors.
pub mod Laws
pub mod Instance
use userd.Common.{
  ℕ, String, ◌≡◌, Bool, true, false, ◌||◌, List, [], ◌∷◌, nat_eq, any_of, if◌then◌else◌,
}

pub data Sentinel : Type 0 where
  invalid_user_object user_not_found login_name_already_taken email_already_taken : Sentinel
  invalid_config invalid_arguments invalid_credentials invalid_verification_email : Sentinel
  reset_password_token_expired user_email_must_be_verified : Sentinel

-- The texts given to `errors.New` and `errgo.New`.
unfoldable pub text : Sentinel → String
text invalid_user_object = "Invalid user object"
text user_not_found = "No user found."
text login_name_already_taken = "The given loginName is already taken."
text email_already_taken = "The given email address is already taken."
text invalid_config = "Invalid config"
text invalid_arguments = "Invalid arguments."
text invalid_credentials = "Invalid credentials."
text invalid_verification_email = "Email adress does not match current email for user."
text reset_password_token_expired = "The ResetPasswordToken has expired."
text user_email_must_be_verified = "Email must be verified to authenticate."

pub data Error : Type 0 where
  known : Sentinel → Error
  foreign : ℕ → Error

abbrev pub number : Sentinel → ℕ
number invalid_user_object = 0
number user_not_found = 1
number login_name_already_taken = 2
number email_already_taken = 3
number invalid_config = 4
number invalid_arguments = 5
number invalid_credentials = 6
number invalid_verification_email = 7
number reset_password_token_expired = 8
number user_email_must_be_verified = 9

-- `err == X` for a declared error X.
abbrev pub err_is : Error → Sentinel → Bool
err_is (known a) s = nat_eq (number a) (number s)
err_is (foreign n) s = false

pub record ErrGo : Type 0 where
  -- errgo.Cause(err)
  pub cause : Error → Error
  -- errgo.Mask(err, allow...), which errgo.MaskFunc(allow...)(err) is too
  pub mask : List (Error → Bool) → Error → Error
  -- err.Error()
  pub message : Error → String
  -- A declared error is its own cause.
  pub cause-known : (s : Sentinel) → cause (known s) ≡ known s
  -- A mask shows the cause if one of the tests accepts it, and hides it otherwise.
  pub cause-mask :
      (allow : List (Error → Bool)) (e : Error)
      → cause (mask allow e) ≡ (if any_of allow (cause e) then cause e else mask allow e)
  -- The result is a new error, none of the declared ones.
  pub mask-fresh :
      (allow : List (Error → Bool)) (e : Error) (s : Sentinel) → err_is (mask allow e) s ≡ false
  pub message-known : (s : Sentinel) → message (known s) ≡ text s

unfoldable pub is_not_found_error : Error → Bool
is_not_found_error err = err_is err user_not_found

unfoldable pub is_email_already_taken_error : Error → Bool
is_email_already_taken_error err = err_is err email_already_taken

unfoldable pub is_login_name_already_taken_error : Error → Bool
is_login_name_already_taken_error err = err_is err login_name_already_taken

unfoldable pub is_user_email_must_be_verified_error : Error → Bool
is_user_email_must_be_verified_error err = err_is err user_email_must_be_verified

module _ (g : ErrGo) where
  unfoldable pub is_service_error : Error → Bool
  is_service_error err =
      let err' = g.cause err in
      err_is err' reset_password_token_expired
      || err_is err' invalid_arguments
      || err_is err' invalid_credentials
      || err_is err' invalid_verification_email
      || err_is err' invalid_config

  -- The tests that `Mask` lets through.
  unfoldable pub mask_tests : List (Error → Bool)
  unfolding is_service_error is_not_found_error is_email_already_taken_error
      is_login_name_already_taken_error is_user_email_must_be_verified_error
  mask_tests =
      is_service_error ∷ is_not_found_error ∷ is_email_already_taken_error
      ∷ is_login_name_already_taken_error ∷ is_user_email_must_be_verified_error ∷ []

  -- service.Mask
  pub mask_service : Error → Error
  mask_service err = g.mask mask_tests err

  -- errgo.Mask with no tests
  pub mask_all : Error → Error
  mask_all err = g.mask [] err
