-- ===== src/Storage/RoundTrip.antt =====
-- What was saved is read back, over every storage that keeps the contract.
use userd.Common.{
  String, ◌≡◌, ◌≢◌, refl, sym, ap, ◌∙◌, some, ◌==◌, if◌then◌else◌, arith, eq_iff, Bool-cases, inl,
  inr,
}
use userd.Errors.{ErrGo}
use userd.User.{User}
use userd.Exec.{Outcome, ok}
use userd.Storage.Interface.{UserStorage, UserCodec, KeyValueStorage, Field, value, find}
use userd.Storage.KeyValue.{save, get, user_storage}
use userd.Storage.Refinement.{IsLawful}
use userd.Storage.Contract.{IsValid, IsStorable, keyvalue-IsDirectory}
use userd.Storage.Directory.{
  Directory, SameUsers, store, IsDirectory, Saving, done, incomplete, taken, Finding, one, missing,
  found,
}

module _ (g : ErrGo) {S : Type 0} (st : UserStorage S) (dir : IsDirectory g st) where
  -- The only user with a value.
  pub same_user :
      (s : S) (id : String) (u v : User) (f : Field)
      → dir.IsValid s
      → dir.users s id ≡ some u
      → dir.users s v.id ≡ some v
      → value f v ≡ value f u
      → value f u ≢ ""
      → v ≡ u
  same_user s id u v f valid at at_v same filled =
      let ids = dir.unique s valid f id v.id u v at at_v (sym same) filled in
      some_eq (sym at_v ∙ ap (dir.users s) (sym ids) ∙ at)
    where
      some_eq : {a b : User} → some a ≡ some b → a ≡ b
      some_eq p = cc

  -- A search for a stored user's value finds the user.
  pub finds :
      (s : S) (id : String) (u : User) (f : Field)
      → dir.IsValid s
      → dir.users s id ≡ some u
      → value f u ≢ ""
      → (find st f (value f u) s).0 ≡ ok u
  finds s id u f valid at filled = go (dir.finding s valid f (value f u))
    where
      go : {r : Outcome User} → Finding (dir.users s) f (value f u) r → r ≡ ok u
      go (one v e at_v same _) = e ∙ ap ok (same_user s id u v f valid at at_v same filled)
      go (missing e nobody) = absurd (filled (nobody id u at refl))

  users-save :
      (s : S) (u : User)
      → dir.IsValid s
      → dir.IsStorable u
      → (st.save u s).0 ≡ ok tt
      → SameUsers (dir.users (st.save u s).1) (store u (dir.users s))
  users-save s u valid storable e = go (dir.saving s valid u storable) e
    where
      go :
          {r : Outcome (Unit {0})} {d' : Directory}
          → Saving g (dir.users s) u r d'
          → r ≡ ok tt
          → SameUsers d' (store u (dir.users s))
      go (done _ _ _ now) h = now
      go (incomplete refused _ _) h = absurd (cc)
      go (taken f refused _ _) h = absurd (cc)

  read :
      (s : S) (u : User) (id : String)
      → found (dir.users s id) ≡ (st.get id s).0
      → found (store u (dir.users s) id) ≡ (if u.id == id then ok u else (st.get id s).0)
  read s u id e = elim (Bool-cases (u.id == id)) [ inl same ↦ rw same | inr other ↦ rw other e ]

  read_back :
      (s : S) (u : User)
      → dir.IsValid s
      → dir.IsStorable u
      → (st.save u s).0 ≡ ok tt
      → (id : String) → id ≢ ""
      → (f : Field) → value f u ≢ ""
      → ((st.get id (st.save u s).1).0 ≡ (if u.id == id then ok u else (st.get id s).0))
        × ((find st f (value f u) (st.save u s).1).0 ≡ ok u)
  read_back s u valid storable e id filled f filled' =
      let valid' = dir.save-IsValid s valid u storable in
      let now = users-save s u valid storable e in
      (
        dir.get-outcome (st.save u s).1 valid' id filled
            ∙ ap found (now id)
            ∙ read s u id (sym (dir.get-outcome s valid id filled)),
        finds (st.save u s).1 u.id u f valid' (now u.id ∙ ground (arith, eq_iff u.id u.id)) filled',
      )

module _ (g : ErrGo) (json : UserCodec) {S : Type 0} (kv : KeyValueStorage S)
    (lawful : IsLawful kv) where
  -- Over a lawful driver and from a valid state, after Save(u) succeeds, Get returns u for its id and
  -- what it returned before for any other id that is not empty; and each FindBy method returns u for
  -- u's value, unless the value is empty.
  pub find-save :
      (s : S) (u : User)
      → IsValid g json kv lawful s
      → IsStorable g json kv lawful u
      → (save g json kv u s).0 ≡ ok tt
      → (id : String) → id ≢ ""
      → (f : Field) → value f u ≢ ""
      → ((get g json kv id (save g json kv u s).1).0
          ≡ (if u.id == id then ok u else (get g json kv id s).0))
        × ((find (user_storage g json kv) f (value f u) (save g json kv u s).1).0 ≡ ok u)
  unfolding user_storage
  find-save = read_back g (user_storage g json kv) (keyvalue-IsDirectory g json kv lawful)
