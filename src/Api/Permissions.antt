-- ===== src/Api/Permissions.antt =====
-- Which attributes of a user a request of middlewares/v1/web.go may change: a table of the routes, told
-- without the handlers, and how a change of the users keeps to it.
use userd.Common.{String, ◌≡◌, Bool, true, false, some, none, arith}
use userd.User.{User, Time}
use userd.Storage.Directory.{Directory, SameUsers, store}
use userd.Api.Routes.{Route}

pub data Attribute : Type 0 where
  profile_name login_name login_password_hash email email_verified : Attribute
  reset_password_token reset_password_token_issued : Attribute

-- Two users agree on an attribute.
abbrev pub Same : Attribute → User → User → Type 0
Same profile_name u u' = u'.profile_name ≡ u.profile_name
Same login_name u u' = u'.login_name ≡ u.login_name
Same login_password_hash u u' = u'.login_password_hash ≡ u.login_password_hash
Same email u u' = u'.email ≡ u.email
Same email_verified u u' = u'.email_verified ≡ u.email_verified
Same reset_password_token u u' = u'.reset_password_token ≡ u.reset_password_token
Same reset_password_token_issued u u' =
    u'.reset_password_token_issued ≡ u.reset_password_token_issued

-- The attributes of a stored user that a route is for. No route but that of a creation stores a user
-- under a new id.
abbrev pub permits : Route → Attribute → Bool
permits Route.change_profile_name profile_name = true
permits Route.change_email email = true
permits Route.verify_email email_verified = true
permits Route.change_login_credentials login_name = true
permits Route.change_login_credentials login_password_hash = true
permits Route.authentication login_password_hash = true
permits Route.new_reset_login_credentials reset_password_token = true
permits Route.new_reset_login_credentials reset_password_token_issued = true
permits Route.reset_credentials_token login_name = true
permits Route.reset_credentials_token login_password_hash = true
permits Route.reset_credentials_token reset_password_token = true
permits Route.reset_credentials_token reset_password_token_issued = true
permits _ _ = false

abbrev pub Agrees : Route → User → User → Type 0
Agrees route u u' = (a : Attribute) → permits route a ≡ false → Same a u u'

-- A request on the route takes the users d to the users d'.
pub data Permitted (route : Route) (d d' : Directory) : Type 0 where
  unchanged : SameUsers d' d → Permitted route d d'
  changed :
      (u u' : User)
      → d u'.id ≡ some u
      → Agrees route u u'
      → SameUsers d' (store u' d)
      → Permitted route d d'
  created :
      (u' : User)
      → route ≡ Route.create_user
      → u'.email_verified ≡ false
      → u'.reset_password_token ≡ ""
      → SameUsers d' (store u' d)
      → Permitted route d d'

-- What each route writes agrees with what was there, on the other attributes.
module _ (u u' : User) where
  pub profile_name-Agrees :
      (x : String) → u' ≡ record u { profile_name = x } → Agrees Route.change_profile_name u u'
  profile_name-Agrees x e a h = ground arith

  pub email-Agrees : (x : String) → u' ≡ record u { email = x } → Agrees Route.change_email u u'
  email-Agrees x e a h = ground arith

  pub verified-Agrees : u' ≡ record u { email_verified = true } → Agrees Route.verify_email u u'
  verified-Agrees e a h = ground arith

  pub credentials-Agrees :
      (x y : String)
      → u' ≡ record u { login_name = x; login_password_hash = y }
      → Agrees Route.change_login_credentials u u'
  credentials-Agrees x y e a h = ground arith

  pub hash-Agrees :
      (x : String) → u' ≡ record u { login_password_hash = x } → Agrees Route.authentication u u'
  hash-Agrees x e a h = ground arith

  pub token-Agrees :
      (x : String) (t : Time)
      → u' ≡ record u { reset_password_token = x; reset_password_token_issued = some t }
      → Agrees Route.new_reset_login_credentials u u'
  token-Agrees x t e a h = ground arith

  pub reset-Agrees :
      (x y : String)
      → u' ≡ record u {
        login_name = x;
        login_password_hash = y;
        reset_password_token = "";
        reset_password_token_issued = none;
      }
      → Agrees Route.reset_credentials_token u u'
  reset-Agrees x y e a h = ground arith
