-- ===== src/Tests/Codec.antt =====
-- A codec of users with the round trip that the storage relies on: each field is written with its
-- bars and backslashes escaped, and closed by a bar; a time is a tally.
use Prim.Native.Char.{Char, code}
use Prim.Native.String.{[], ◌∷◌}
use userd.Common.{
  ℕ, zero, suc, String, ◌≡◌, refl, ap, Bool, true, false, ◌||◌, Option, none, some, arith, nat_eq,
  if◌then◌else◌,
}
use userd.User.{Time, User}
use userd.Exec.{Outcome, ok, err}
use userd.Errors.{foreign}
use userd.Storage.Interface.{UserCodec}

abbrev is_bar : Char → Bool
is_bar c = nat_eq (code c) 124

abbrev is_escape : Char → Bool
is_escape c = nat_eq (code c) 92

put : String → String → String
put [] rest = "|" ∷ rest
put (c ∷ s) rest = if is_bar c || is_escape c then "\\" ∷ (c ∷ put s rest) else c ∷ put s rest

push : Char → Option (String × String) → Option (String × String)
push c none = none
push c (some (s, rest)) = some (c ∷ s, rest)

-- The flag says that the next character is taken as it is.
take : Bool → String → Option (String × String)
take escaped [] = none
take true (c ∷ s) = push c (take false s)
take false (c ∷ s) =
    if is_bar c then some ([], s) else if is_escape c then take true s else push c (take false s)

take-put : (s rest : String) → take false (put s rest) ≡ some (s, rest)
unfolding take put push
take-put [] rest = refl
take-put (c ∷ s) rest = ground (arith, take-put s rest)

tally : ℕ → String
tally zero = []
tally (suc n) = "1" ∷ tally n

count : String → ℕ
count [] = 0
count (c ∷ s) = suc (count s)

count-tally : (n : ℕ) → count (tally n) ≡ n
unfolding count tally
count-tally zero = refl
count-tally (suc n) = ap suc (count-tally n)

write_time : Option Time → String
unfolding tally
write_time none = []
write_time (some t) = "1" ∷ tally t

read_time : String → Option Time
unfolding count
read_time [] = none
read_time (c ∷ s) = some (count s)

read_time-write_time : (t : Option Time) → read_time (write_time t) ≡ t
unfolding read_time write_time
read_time-write_time none = refl
read_time-write_time (some t) = ap some (count-tally t)

write_flag : Bool → String
write_flag true = "t"
write_flag false = []

read_flag : String → Bool
read_flag [] = false
read_flag _ = true

read_flag-write_flag : (b : Bool) → read_flag (write_flag b) ≡ b
unfolding read_flag write_flag
read_flag-write_flag true = refl
read_flag-write_flag false = refl

unfoldable pub encode : User → String
unfolding put write_flag write_time
encode u = put u.id (
    put u.profile_name (
      put u.login_name (
        put u.login_password_hash (
          put u.email (
            put (write_flag u.email_verified)
              (put u.reset_password_token (put (write_time u.reset_password_token_issued) [])))))))

infixl 5 ◌>>=◌
abbrev ◌>>=◌ : {A B : Type 0} → Option A → (A → Option B) → Option B
none >>= f = none
some a >>= f = f a

abbrev field : {B : Type 0} → String → (String → String → Option B) → Option B
field s f = take false s >>= λ p. f p.0 p.1

unfoldable pub decode : String → Option User
unfolding take push read_flag read_time
decode text = field text λ id r. field r λ profile_name r. field r λ login_name r.
    field r λ login_password_hash r. field r λ email r. field r λ verified r. field r λ token r.
      field r λ issued r. some (record {
        id = id;
        profile_name = profile_name;
        login_name = login_name;
        login_password_hash = login_password_hash;
        email = email;
        email_verified = read_flag verified;
        reset_password_token = token;
        reset_password_token_issued = read_time issued;
      })

decode-encode : (u : User) → decode (encode u) ≡ some u
unfolding encode decode
decode-encode u =
    rw
      (
        take-put u.id,
        take-put u.profile_name,
        take-put u.login_name,
        take-put u.login_password_hash,
        take-put u.email,
        take-put (write_flag u.email_verified),
        take-put u.reset_password_token,
        take-put (write_time u.reset_password_token_issued),
      )
      (λ i. some (record u {
        email_verified = read_flag-write_flag u.email_verified i;
        reset_password_token_issued = read_time-write_time u.reset_password_token_issued i;
      }))

unfoldable pub read_text : Option User → Outcome User
read_text none = err (foreign 1)
read_text (some u) = ok u

pub read_text-encode :
    (u : User) (text : String) → ok (encode u) ≡ ok text → read_text (decode text) ≡ ok u
unfolding read_text
read_text-encode u text h = let e : encode u ≡ text = cc in rw (← e, decode-encode u)

-- Every user can be written.
abbrev pub codec : UserCodec
codec = record {
  marshal = λ u. ok (encode u);
  unmarshal = λ text. read_text (decode text);
  unmarshal-marshal = read_text-encode;
}
