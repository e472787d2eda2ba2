-- ===== src/User.antt =====
-- service/user/user.go: the user object, and the fields by which a user can be found.
use userd.Common.{ℕ, String, Bool, false, Option, none}

-- A `time.Time` is a number of nanoseconds since a fixed origin. A `string` is taken as text, so that
-- one that is not valid UTF-8 is left out.
abbrev pub Time : Type 0
Time = ℕ

pub record User : Type 0 where
  pub id : String
  pub profile_name : String
  pub login_name : String
  pub login_password_hash : String
  pub email : String
  pub email_verified : Bool
  pub reset_password_token : String
  pub reset_password_token_issued : Option Time

-- user.User{}
abbrev pub zero_user : User
zero_user = record {
  id = "";
  profile_name = "";
  login_name = "";
  login_password_hash = "";
  email = "";
  email_verified = false;
  reset_password_token = "";
  reset_password_token_issued = none;
}
