-- ===== src/IdFactory/Restart.antt =====
-- CreateUser of service/service.go with a new sequence factory (service/idfactory/sequence.go), before
-- and after a restart of the process over a storage that is kept.
use Prim.Native.Nat.{◌^◌}
use userd.Common.{
  ℕ, ◌<◌, String, ◌≡◌, ◌≢◌, refl, sym, ap, ◌∙◌, ◌==◌, false, none, some, inl, inr, [], text_cases,
  if◌then◌else◌,
}
use mathlib.Core.Path.{subst}
use userd.Errors.{ErrGo}
use userd.User.{Time, User}
use userd.Exec.{Outcome, ok}
use userd.Storage.Directory.{IsDirectory, IsFree, SameUsers, store}
use userd.Service.Backends.{Dependencies, World, Entry}
use userd.Service.Users.{create_user, new_user}
use userd.Service.Effects.{effect_of_ok}
use userd.Service.Methods.{create_user-Effect}
use userd.Service.Success.{create_user-ok}
use userd.Service.Recovery.{store-store}
use userd.IdFactory.{SequenceFactory, new_sequence_factory, new_user_id, sequence_factory}
use userd.IdFactory.Laws.{used_format, new_user_id_lem}

-- The arguments of CreateUser, and the hash that the hasher makes of the password.
pub record Creation : Type 0 where
  pub profile_name : String
  pub email : String
  pub login_name : String
  pub password : String
  pub hash : String

pub record IsFilled (c : Creation) : Type 0 where
  pub profile_name : c.profile_name ≢ ""
  pub email : c.email ≢ ""
  pub login_name : c.login_name ≢ ""
  pub password : c.password ≢ ""

-- The user that is stored then: with no verified email, and no reset token.
abbrev pub made : (id : String) → Creation → User
made id c = record {
  id = id;
  profile_name = c.profile_name;
  login_name = c.login_name;
  login_password_hash = c.hash;
  email = c.email;
  email_verified = false;
  reset_password_token = "";
  reset_password_token_issued = none;
}

-- A process that starts, with a new sequence factory, over the storage that another one left.
abbrev pub restarted :
    {S H : Type 0} → String → H → Time → World S SequenceFactory H → World S SequenceFactory H
restarted format salt clock w = record {
  store = w.store;
  ids = new_sequence_factory format;
  salt = salt;
  clock = clock;
  tasks = [];
}

-- CreateUser stores the new user where nothing stops it.
module _ (g : ErrGo) {S F H : Type 0} (deps : Dependencies S F H)
    (dir : IsDirectory g deps.user_storage) (storable : (u : User) → dir.IsStorable u)
    (marshals : (e : Entry) → (bytes : String) × (deps.marshal_entry e ≡ ok bytes)) where
  create_user-stores :
      (profile_name email login_name password hash id : String) (w : World S F H)
      → dir.IsValid w.store
      → (deps.id_factory.new_user_id w.ids).0 ≡ id
      → id ≢ ""
      → profile_name ≢ ""
      → email ≢ ""
      → login_name ≢ ""
      → password ≢ ""
      → (deps.hasher.hash password w.salt).0 ≡ ok hash
      → IsFree (dir.users w.store) (new_user g deps id profile_name email login_name hash)
      → ((create_user g deps profile_name email login_name password w).0 ≡ ok id)
        × SameUsers
            (dir.users (create_user g deps profile_name email login_name password w).1.store)
            (store (new_user g deps id profile_name email login_name hash) (dir.users w.store))
  create_user-stores profile_name email login_name password hash id w valid next filled p e l pw
        hashed free =
      let succeeds : (create_user g deps profile_name email login_name password w).0 ≡ ok id =
        create_user-ok g deps dir storable marshals profile_name email login_name password hash w
          valid p e l pw hashed (λ empty. filled (sym next ∙ empty)) (rw next free)
        ∙ ap ok next in
      let (u, (_, hash', hashed', made), now) =
        effect_of_ok g deps dir id
          (create_user-Effect g deps dir storable marshals profile_name email login_name password w
            valid).0
          succeeds in
      let same : hash' ≡ hash = cc in
      (
        succeeds,
        subst
            (λ (x : User).
              SameUsers
                (dir.users (create_user g deps profile_name email login_name password w).1.store)
                (store x (dir.users w.store)))
            (made ∙ ap (λ h. new_user g deps id profile_name email login_name h) same) now,
      )

module _ (g : ErrGo) (width : ℕ) (sprintf : (format : String) → ℕ → String) {S H : Type 0}
    (deps : Dependencies S SequenceFactory H) (dir : IsDirectory g deps.user_storage)
    (storable : (u : User) → dir.IsStorable u)
    (marshals : (e : Entry) → (bytes : String) × (deps.marshal_entry e ≡ ok bytes)) where
  abbrev pub numbered : Dependencies S SequenceFactory H
  numbered = record deps { id_factory = sequence_factory width sprintf }

  -- What Sprintf makes of the number one.
  abbrev pub first_id : String → String
  first_id format = sprintf (used_format format) 1

  first_lem :
      (format : String) (ids : SequenceFactory)
      → 1 < 2 ^ width
      → ids ≡ new_sequence_factory format
      → (numbered.id_factory.new_user_id ids).0 ≡ first_id format
  unfolding sequence_factory new_sequence_factory
  first_lem format ids wide fresh =
      ap (λ seq. (new_user_id width sprintf seq).0) fresh
      ∙ ap (λ r. r.0) (new_user_id_lem width sprintf (new_sequence_factory format) wide)

  -- A call of CreateUser, and the hash that the hasher makes of its password.
  abbrev pub create :
      Creation → World S SequenceFactory H → Outcome String × World S SequenceFactory H
  create c w = create_user g numbered c.profile_name c.email c.login_name c.password w

  first_user :
      (format : String) (c : Creation) (w : World S SequenceFactory H)
      → dir.IsValid w.store
      → w.ids ≡ new_sequence_factory format
      → 1 < 2 ^ width
      → first_id format ≢ ""
      → IsFilled c
      → (deps.hasher.hash c.password w.salt).0 ≡ ok c.hash
      → IsFree (dir.users w.store) (made (first_id format) c)
      → ((create c w).0 ≡ ok (first_id format))
        × SameUsers
            (dir.users (create c w).1.store)
            (store (made (first_id format) c) (dir.users w.store))
  first_user format c w valid fresh wide id filled hashed free =
      create_user-stores g numbered dir storable marshals c.profile_name c.email c.login_name
        c.password c.hash (first_id format) w valid (first_lem format w.ids wide fresh) id
        filled.profile_name filled.email filled.login_name filled.password hashed free

  -- A process that starts with a new sequence factory creates a user; another one, which starts over
  -- the storage that the first left, with a new sequence factory of the same format, creates a second
  -- user. Both calls succeed and return the id that Sprintf makes of 1; the second user is stored in
  -- place of the first, who is lost, and no other user changes. The conditions: the storage is valid,
  -- no argument is empty, the id is not, the hasher hashes the passwords, a uint holds 1, and at first
  -- no user with another id has one of the emails or login names.
  pub create_user-new_sequence_factory :
      (format : String) (first second : Creation) (w : World S SequenceFactory H) (salt : H)
      (clock : Time)
      → dir.IsValid w.store
      → w.ids ≡ new_sequence_factory format
      → 1 < 2 ^ width
      → first_id format ≢ ""
      → IsFilled first
      → IsFilled second
      → (deps.hasher.hash first.password w.salt).0 ≡ ok first.hash
      → (deps.hasher.hash second.password salt).0 ≡ ok second.hash
      → IsFree (dir.users w.store) (made (first_id format) first)
      → IsFree (dir.users w.store) (made (first_id format) second)
      → ((create first w).0 ≡ ok (first_id format))
        × SameUsers
            (dir.users (create first w).1.store)
            (store (made (first_id format) first) (dir.users w.store))
        × ((create second (restarted format salt clock (create first w).1)).0
            ≡ ok (first_id format))
        × SameUsers
            (dir.users (create second (restarted format salt clock (create first w).1)).1.store)
            (store (made (first_id format) second) (dir.users w.store))
  create_user-new_sequence_factory format first second w salt clock valid fresh wide id filled
        filled' hashed hashed' free free' =
      let (created, now) = first_user format first w valid fresh wide id filled hashed free in
      let valid' : dir.IsValid (create first w).1.store =
        (create_user-Effect g numbered dir storable marshals first.profile_name first.email
          first.login_name first.password w valid).1 in
      let (again, later) =
        first_user format second (restarted format salt clock (create first w).1) valid' refl wide
          id filled' hashed'
          (λ f i v at same filled. elim (text_cases (first_id format) i) [
            | inl (_, e) ↦ sym e
            | inr (differs, _) ↦ free' f i v (rw differs at (sym (now i) ∙ at)) same filled
          ]) in
      (
        created,
        now,
        again,
        λ i.
            later i
            ∙ ap (λ o. if first_id format == i then some (made (first_id format) second) else o)
                (now i)
            ∙ store-store (made (first_id format) second) (made (first_id format) first)
                (dir.users w.store) i refl,
      )
