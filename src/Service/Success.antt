-- ===== src/Service/Success.antt =====
-- When the methods of service/service.go succeed: what stops them otherwise is an empty argument, a
-- value that another user has, or a hasher that panics.
pub mod Changes
use userd.Common.{String, ◌≡◌, ◌≢◌, refl, sym, ap, ◌∙◌, ◌==◌, false, inl, inr, some, arith, eq_iff}
use userd.Errors.{ErrGo}
use userd.User.{User}
use userd.Exec.{Outcome, ok}
use userd.Storage.Interface.{Field, login_names, emails, reset_password_tokens, value}
use userd.Storage.Directory.{
  Directory, IsDirectory, IsFree, IsIncomplete, Saving, done, incomplete, taken,
}
use userd.Service.Backends.{Dependencies, World, Entry, on_store, on_salt, on_ids}
use userd.Service.Users
use userd.Service.Users.{new_user, log_event, create_user}
use userd.Service.Effects.{log_event_lem}

-- A text that is not empty.
pub filled_test : {s : String} → s ≢ "" → (s == "") ≡ false
filled_test {s} h = ground (arith, eq_iff s "")

module _ (g : ErrGo) {S F H : Type 0} (deps : Dependencies S F H)
    (dir : IsDirectory g deps.user_storage) (storable : (u : User) → dir.IsStorable u)
    (marshals : (e : Entry) → (bytes : String) × (deps.marshal_entry e ≡ ok bytes)) where
  -- Save accepts a complete user whose values no other user has.
  pub save-ok :
      (s : S) (u : User)
      → dir.IsValid s
      → ¬ IsIncomplete u
      → IsFree (dir.users s) u
      → (deps.user_storage.save u s).0 ≡ ok tt
  save-ok s u valid complete free = go (dir.saving s valid u (storable u))
    where
      go : {r : Outcome (Unit {0})} {d' : Directory} → Saving g (dir.users s) u r d' → r ≡ ok tt
      go (done e _ _ _) = e
      go (incomplete _ lacks _) = absurd (complete lacks)
      go (taken f _ t _) = absurd (t.distinct (free f t.owner t.other t.stored t.same t.filled))

  pub logs :
      (tag : String) (entry : Entry) (w : World S F H) → (log_event g deps tag entry w).0 ≡ ok tt
  logs tag entry w =
      let (bytes, e) = marshals entry in
      ap (λ r. r.0) (log_event_lem g deps dir tag entry bytes w e)

  -- From a valid storage, CreateUser succeeds and returns the next id of the factory, if no argument
  -- is empty, the id is not, the hasher does not panic, and no user with another id has the email or
  -- the login name.
  pub create_user-ok :
      (profile_name email login_name password hash : String) (w : World S F H)
      → dir.IsValid w.store
      → profile_name ≢ ""
      → email ≢ ""
      → login_name ≢ ""
      → password ≢ ""
      → (deps.hasher.hash password w.salt).0 ≡ ok hash
      → (deps.id_factory.new_user_id w.ids).0 ≢ ""
      → IsFree
          (dir.users w.store)
          (new_user g deps (deps.id_factory.new_user_id w.ids).0 profile_name email login_name hash)
      → (create_user g deps profile_name email login_name password w).0
        ≡ ok (deps.id_factory.new_user_id w.ids).0
  unfolding create_user on_store on_salt on_ids
  create_user-ok profile_name email login_name password hash w valid p e l pw hashed id free =
      let u =
        new_user g deps (deps.id_factory.new_user_id w.ids).0 profile_name email login_name hash in
      let saved =
        save-ok w.store u valid (elim [ inl x ↦ id x | inr (inl x) ↦ e x | inr (inr x) ↦ l x ])
          free in
      rw (filled_test p, filled_test e, filled_test l, filled_test pw, hashed, saved, logs _ _ _)
        refl

  -- No other user has u's value of the field.
  abbrev pub IsFreeAt : Directory → User → Field → Type 0
  IsFreeAt d u f =
      (id : String) (v : User) → d id ≡ some v → value f v ≡ value f u → value f u ≢ "" → id ≡ u.id

  -- A stored user's own values are free.
  pub own-IsFreeAt :
      (s : S) (id : String) (u u' : User) (f : Field)
      → dir.IsValid s
      → dir.users s id ≡ some u
      → u'.id ≡ id
      → value f u ≡ value f u'
      → IsFreeAt (dir.users s) u' f
  own-IsFreeAt s id u u' f valid at own same i v at_v same_v filled =
      dir.unique s valid f i id v u at_v at (same_v ∙ sym same) (λ e. filled (sym same_v ∙ e))
      ∙ sym own

  -- Field by field.
  pub by_field :
      (d : Directory) (u : User)
      → IsFreeAt d u login_names
      → IsFreeAt d u emails
      → IsFreeAt d u reset_password_tokens
      → IsFree d u
  by_field d u l e t login_names = l
  by_field d u l e t emails = e
  by_field d u l e t reset_password_tokens = t
