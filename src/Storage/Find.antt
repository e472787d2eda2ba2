-- ===== src/Storage/Find.antt =====
-- `Get` and the `FindBy` methods of keyvalue.go over consistent tables.
use userd.Common.{
  String, ◌≡◌, ◌≢◌, refl, sym, ap, ◌∙◌, inl, inr, none, some, Option-cases, text_cases, eq_iff,
  arith,
}
use userd.Errors.{ErrGo}
use userd.User.{User}
use userd.Exec.{Outcome}
use userd.Storage.Interface.{
  UserCodec, Field, login_names, emails, reset_password_tokens, value, find,
}
use userd.Storage.KeyValue.{
  get, found_user, find_in, user_storage, find_by_login_name, find_by_email,
  find_by_reset_password_token,
}
use userd.Storage.Tables.{Tables, tables_storage, entry_index}
use userd.Storage.Directory.{Finding, one, missing, found}
use userd.Storage.Consistency.{user_at, IsConsistent}
use userd.Storage.Save.{no_lock_lookup_lem}

module _ (g : ErrGo) (json : UserCodec) (t : Tables) (c : IsConsistent json t) where
  pub get_lem :
      (id : String) → id ≢ "" → get g json tables_storage id t ≡ (found (user_at json t id), t)
  unfolding get
  get_lem id h = ground (arith, eq_iff id "", no_lock_lookup_lem g json t id c)

  -- Reading changes nothing, and an empty id panics.
  pub get-state : (id : String) → (get g json tables_storage id t).1 ≡ t
  unfolding get
  get-state id = ground (arith, no_lock_lookup_lem g json t id c)

  find_in_lem :
      (f : Field) (key : String)
      → find (user_storage g json tables_storage) f key
        ≡ find_in g json tables_storage (entry_index f) key
  unfolding user_storage find_by_login_name find_by_email find_by_reset_password_token
  find_in_lem login_names key = refl
  find_in_lem emails key = refl
  find_in_lem reset_password_tokens key = refl

  abbrev Findings : Field → String → Outcome User × Tables → Type 0
  Findings f key r = Finding (user_at json t) f key r.0 × (r.1 ≡ t)

  -- A user is entered under its value, so there is none where there is no entry.
  unowned :
      (f : Field) (key : String)
      → t.entries f key ≡ none
      → (id : String) (u : User) → user_at json t id ≡ some u
      → value f u ≡ key
      → key ≡ ""
  unowned f key absent id u at same = elim (text_cases key "") [
    | inl (_, e) ↦ e
    | inr (_, filled) ↦
        let entry : t.entries f key ≡ some id =
          ap (t.entries f) (sym same) ∙ c.indexed f id u at (λ z. filled (sym same ∙ z)) in
        absurd (cc)
  ]

  find_in_outcomes :
      (f : Field) (key : String)
      → Findings f key (find_in g json tables_storage (entry_index f) key t)
  unfolding find_in found_user
  find_in_outcomes f key = elim (Option-cases (t.entries f key)) [
    | inl absent ↦ rw absent (missing refl (unowned f key absent), refl)
    | inr (id, entry) ↦
        let (u, at, same, filled) = c.owned f key id entry in
        rw (entry, no_lock_lookup_lem g json t id c, at)
          (one u refl (ap (user_at json t) (c.well_formed id u at).0 ∙ at) same filled, refl)
  ]

  -- A search finds the user with the value, or none where there is none.
  pub find_outcomes :
      (f : Field) (key : String)
      → Findings f key (find (user_storage g json tables_storage) f key t)
  find_outcomes f key = rw (find_in_lem f key) (find_in_outcomes f key)
