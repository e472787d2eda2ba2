-- ===== src/Api/Verified.antt =====
-- How an email of a stored user comes to be verified, over the history of a server
-- (middlewares/v1/web.go).
use userd.Common.{
  String, ◌≡◌, ◌≢◌, ◌⊎◌, sym, ap, ◌∙◌, false, some, List, text_cases, inl, inr, arith,
}
use userd.Errors.{ErrGo}
use userd.User.{User, Time}
use userd.Exec.{Outcome, ok, Exec}
use userd.Storage.Directory.{Directory, IsDirectory, SameUsers, store}
use userd.Service.Backends.{Config, Dependencies, World, Entry}
use userd.Api.Writer.{Call}
use userd.Api.Routes.{Route}
use userd.Api.History.{Reached, initially, request, meanwhile, Reached-IsValid}
use userd.Api.Permissions.{Permitted, unchanged, changed, created, permits, email_verified}
use userd.Api.Permitted.{serve-Permitted}

-- No stored user's email is verified.
abbrev pub Unverified : Directory → Type 0
Unverified d = (id : String) (u : User) → d id ≡ some u → u.email_verified ≡ false

-- The user that a write finds at an id.
looked_up :
    (v : User) (d d' : Directory) (id : String) (u : User)
    → SameUsers d' (store v d)
    → d' id ≡ some u
    → (v ≡ u) ⊎ (d id ≡ some u)
looked_up v d d' id u now at = elim (text_cases v.id id) [
  | inl (same, _) ↦ let e : some v ≡ some u = rw same at (sym (now id) ∙ at) in inl (cc)
  | inr (other, _) ↦ inr (rw other at (sym (now id) ∙ at))
]

Permitted-Unverified :
    (route : Route) (d d' : Directory)
    → permits route email_verified ≡ false
    → Permitted route d d'
    → Unverified d
    → Unverified d'
Permitted-Unverified route d d' shut (unchanged same) none_verified id u at =
    none_verified id u (sym (same id) ∙ at)
Permitted-Unverified route d d' shut (changed v v' at_v agrees now) none_verified id u at =
    elim (looked_up v' d d' id u now at) [
      | inl e ↦
          ap (λ (x : User). x.email_verified) (sym e)
          ∙ agrees email_verified shut
          ∙ none_verified v'.id v at_v
      | inr at' ↦ none_verified id u at'
    ]
Permitted-Unverified route d d' shut (created v' _ unverified _ now) none_verified id u at =
    elim (looked_up v' d d' id u now at) [
      | inl e ↦ ap (λ (x : User). x.email_verified) (sym e) ∙ unverified
      | inr at' ↦ none_verified id u at'
    ]

shut : (route : Route) → route ≢ Route.verify_email → permits route email_verified ≡ false
shut route h = ground arith

module _ (g : ErrGo) {S F H : Type 0} (deps : Dependencies S F H)
    (dir : IsDirectory g deps.user_storage)
    (marshal_item : (tag : String) → Time → (message : String) → Outcome String)
    (encode_item : Outcome String → Exec (List Call) (Unit {0})) (config : Config) where
  -- A history with no request on /v1/user/verify_email.
  abbrev pub AvoidsVerify :
      {w₀ w : World S F H} → Reached g deps dir marshal_item encode_item config w₀ w → Type 0
  AvoidsVerify initially = Unit {0}
  AvoidsVerify (request encode esc route req before) =
      (route ≢ Route.verify_email) × AvoidsVerify before
  AvoidsVerify (meanwhile now tasks before) = AvoidsVerify before

  module _ (storable : (u : User) → dir.IsStorable u)
      (marshals : (e : Entry) → (bytes : String) × (deps.marshal_entry e ≡ ok bytes)) where
    -- From a valid storage in which no user is marked as verified: after requests that are served one
    -- after the other, none of them on /v1/user/verify_email, no stored user is marked as verified.
    -- That each user and each event can be encoded is assumed.
    pub Reached-Unverified :
        {w₀ w : World S F H}
        → dir.IsValid w₀.store
        → Unverified (dir.users w₀.store)
        → (reached : Reached g deps dir marshal_item encode_item config w₀ w) → AvoidsVerify reached
        → (id : String) (u : User) → dir.users w.store id ≡ some u
        → u.email_verified ≡ false
    Reached-Unverified valid none_verified initially avoids = none_verified
    Reached-Unverified valid none_verified (request {w} encode esc route req before)
          (other, avoids) =
        Permitted-Unverified route _ _ (shut route other)
          (serve-Permitted g deps dir storable marshals encode marshal_item encode_item config esc
            route req w
            (Reached-IsValid g deps dir marshal_item encode_item config storable marshals valid
              before))
          (Reached-Unverified valid none_verified before avoids)
    Reached-Unverified valid none_verified (meanwhile now tasks before) avoids =
        Reached-Unverified valid none_verified before avoids
