-- ===== src/Storage/Interface.antt =====
-- The interfaces of the storage: `UserStorage` of service/backends.go, the driver and index of
-- service/storage/keyvalue.go, each as a record of its methods over a state `S`, and the JSON codec
-- of a user (encoding/json), with the round trip that the program relies on.
use userd.Common.{String, ◌≡◌, Bool, Option}
use userd.User.{User}
use userd.Exec.{Outcome, ok, Exec}

pub record UserStorage (S : Type 0) : Type 0 where
  pub save : User → Exec S (Unit {0})
  pub get : String → Exec S User
  pub find_by_login_name : String → Exec S User
  pub find_by_email : String → Exec S User
  pub find_by_reset_password_token : String → Exec S User

-- `Lookup` returns a text and a flag: here the text is there exactly when the flag is true.
pub record KeyValueIndex (S : Type 0) : Type 0 where
  pub put : (key user_id : String) → Exec S (Unit {0})
  pub remove : (key : String) → Exec S (Unit {0})
  pub lookup : (key : String) → Exec S (Option String)

pub record KeyValueStorageDriver (S : Type 0) : Type 0 where
  pub set : (user_id json : String) → Exec S (Unit {0})
  pub lookup : (user_id : String) → Exec S (Option String)
  pub index : (name : String) → S → KeyValueIndex S × S

pub record KeyValueStorage (S : Type 0) : Type 0 where
  pub login_names : KeyValueIndex S
  pub emails : KeyValueIndex S
  pub reset_password_token : KeyValueIndex S
  pub driver : KeyValueStorageDriver S

-- json.Marshal and json.Unmarshal at the type `user.User`. The texts of a user are valid UTF-8, which
-- json.Marshal writes as they are, and its times lie before the year 10000, after which it refuses
-- them: what it makes of other texts and times is not modelled.
pub record UserCodec : Type 0 where
  pub marshal : User → Outcome String
  pub unmarshal : String → Outcome User
  pub unmarshal-marshal : (u : User) (text : String) → marshal u ≡ ok text → unmarshal text ≡ ok u

-- The three fields that are indexed.
pub data Field : Type 0 where
  login_names emails reset_password_tokens : Field

abbrev pub same_field : Field → Field → Bool
same_field login_names login_names = Bool.true
same_field emails emails = Bool.true
same_field reset_password_tokens reset_password_tokens = Bool.true
same_field _ _ = Bool.false

abbrev pub index_of : {S : Type 0} → KeyValueStorage S → Field → KeyValueIndex S
index_of kv login_names = kv.login_names
index_of kv emails = kv.emails
index_of kv reset_password_tokens = kv.reset_password_token

-- A user's value in an indexed field.
abbrev pub value : Field → User → String
value login_names u = u.login_name
value emails u = u.email
value reset_password_tokens u = u.reset_password_token

abbrev pub find : {S : Type 0} → UserStorage S → Field → String → Exec S User
find st login_names = st.find_by_login_name
find st emails = st.find_by_email
find st reset_password_tokens = st.find_by_reset_password_token
