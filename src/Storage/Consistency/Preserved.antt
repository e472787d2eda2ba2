-- ===== src/Storage/Consistency/Preserved.antt =====
-- Writing a user whose values are free keeps the tables consistent.
use userd.Common.{
  String, ◌≡◌, ◌≢◌, refl, sym, ap, ◌∙◌, ◌⊎◌, inl, inr, Option, none, some, Option-cases, text_cases,
  ◌==◌, eq_iff, eq_refl, if◌then◌else◌, arith,
}
use userd.Common.Table.{Table}
use userd.User.{User, zero_user}
use userd.Exec.{ok}
use userd.Storage.Interface.{UserCodec, Field, login_names, emails, reset_password_tokens, value}
use userd.Storage.Tables.{Tables}
use userd.Storage.Consistency.{user_at, IsConsistent, reindex, saved}

-- The user that is replaced: the empty one if there is none.
abbrev pub old_of : Option User → User
old_of none = zero_user
old_of (some u) = u

module _ (old new id : String) (m : Table) where
  reindex_self : new ≢ "" → reindex old new id m new ≡ some id
  reindex_self h = ground (arith, eq_iff new "", eq_refl new)

  reindex_other : (k : String) → new ≢ k → ((old ≡ "") ⊎ (old ≢ k)) → reindex old new id m k ≡ m k
  reindex_other k h (inl e) = ground (arith, eq_iff new "", eq_iff new k, eq_iff old "")
  reindex_other k h (inr e) = ground (arith, eq_iff new "", eq_iff new k, eq_iff old k)

  reindex-eq-some :
      (k j : String)
      → reindex old new id m k ≡ some j
      → ((new ≡ k) × (new ≢ "") × (j ≡ id)) ⊎ ((m k ≡ some j) × ((old ≡ "") ⊎ (old ≢ k)))
  reindex-eq-some k j h =
      ground (arith, text_cases new "", text_cases new k, text_cases old "", text_cases old k)

module _ (json : UserCodec) (t : Tables) (c : IsConsistent json t) (u : User) (text : String)
    (written : json.unmarshal text ≡ ok u) where
  abbrev old : User
  old = old_of (user_at json t u.id)

  abbrev after : Tables
  after = saved old u text t

  -- The users after the write.
  pub user_at-saved :
      (i : String) → user_at json after i ≡ (if u.id == i then some u else user_at json t i)
  user_at-saved i = elim (text_cases u.id i) [ inl (e, _) ↦ rw e (rw written) | inr (e, _) ↦ rw e ]

  -- The value that the replaced user had, if not empty, was entered for it.
  old_entered : (f : Field) (k : String) → value f old ≡ k → k ≢ "" → t.entries f k ≡ some u.id
  old_entered f k e h = elim (Option-cases (user_at json t u.id)) [
    | inl absent ↦ absurd (h (sym e ∙ ap (λ o. value f (old_of o)) absent ∙ empty_value f))
    | inr (v, stored) ↦
        let same : value f v ≡ k = sym (ap (λ o. value f (old_of o)) stored) ∙ e in
        rw (← same) (c.indexed f u.id v stored (λ z. h (sym same ∙ z)))
  ]
    where
      empty_value : (f : Field) → value f zero_user ≡ ""
      empty_value login_names = refl
      empty_value emails = refl
      empty_value reset_password_tokens = refl

  module _
      (free : (f : Field) (id : String)
        → value f u ≢ ""
        → t.entries f (value f u) ≡ some id
        → id ≡ u.id) where
    some_eq : {a b : String} → some a ≡ some b → a ≡ b
    some_eq e = cc

    -- An entry of the replaced user is gone.
    lost :
        (f : Field) (key : String) (v : User)
        → ((value f old ≡ "") ⊎ (value f old ≢ key))
        → user_at json t u.id ≡ some v
        → value f v ≡ key
        → key ≢ ""
        → ⊥
    lost f key v kept stored same filled =
        let e : value f old ≡ key = rw stored same in
        elim kept [ inl none_before ↦ filled (sym e ∙ none_before) | inr other ↦ other e ]

    indexed_after :
        (f : Field) (id : String) (v : User)
        → user_at json after id ≡ some v
        → value f v ≢ ""
        → after.entries f (value f v) ≡ some id
    indexed_after f id v stored h = elim (text_cases u.id id) [
      | inl (eq, same) ↦
          let replaced : some u ≡ some v = rw eq at (sym (user_at-saved id) ∙ stored) in
          let e : u ≡ v = cc in
          rw (← e, ← same)
            (reindex_self (value f old) (value f u) u.id (t.entries f)
              (λ z. h (ap (value f) (sym e) ∙ z)))
      | inr (eq, other) ↦
          let before : user_at json t id ≡ some v = rw eq at (sym (user_at-saved id) ∙ stored) in
          let entry = c.indexed f id v before h in
          reindex_other (value f old) (value f u) u.id (t.entries f) (value f v)
            (λ e. other (sym (free f id (λ z. h (sym e ∙ z)) (rw e entry))))
            (inr (λ e. other (some_eq (sym (old_entered f (value f v) e h) ∙ entry))))
          ∙ entry
    ]

    owned_after :
        (f : Field) (key id : String)
        → after.entries f key ≡ some id
        → (v : User) × (user_at json after id ≡ some v) × (value f v ≡ key) × (key ≢ "")
    owned_after f key id h =
        elim (reindex-eq-some (value f old) (value f u) u.id (t.entries f) key id h) [
          | inl (new, k, own) ↦
              (u, rw own (user_at-saved u.id ∙ rw (eq_refl u.id)), new, λ z. k (new ∙ z))
          | inr (was, kept) ↦
              let (v, stored, same, filled) = c.owned f key id was in
              elim (text_cases u.id id) [
                | inl (eq, mine) ↦ absurd (lost f key v kept (rw mine stored) same filled)
                | inr (eq, other) ↦ (v, user_at-saved id ∙ rw eq stored, same, filled)
              ]
        ]

    -- The tables are consistent after the write.
    pub saved-IsConsistent : u.id ≢ "" → u.email ≢ "" → u.login_name ≢ "" → IsConsistent json after
    saved-IsConsistent hi he hl = record {
      readable = readable_after;
      well_formed = well_formed_after;
      indexed = indexed_after;
      owned = owned_after;
    }
      where
        readable_after :
            (id text' : String)
            → after.users id ≡ some text'
            → (v : User) × (json.unmarshal text' ≡ ok v)
        readable_after id text' h = elim (text_cases u.id id) [
          | inl (eq, same) ↦
              let e : some text ≡ some text' = rw eq at h in (u, rw (← some_eq e) written)
          | inr (eq, other) ↦ c.readable id text' (rw eq at h)
        ]

        well_formed_after :
            (id : String) (v : User)
            → user_at json after id ≡ some v
            → (v.id ≡ id) × (v.id ≢ "") × (v.email ≢ "") × (v.login_name ≢ "")
        well_formed_after id v stored = elim (text_cases u.id id) [
          | inl (eq, same) ↦
              let replaced : some u ≡ some v = rw eq at (sym (user_at-saved id) ∙ stored) in
              let e : u ≡ v = cc in rw (← e) (same, hi, he, hl)
          | inr (eq, other) ↦ c.well_formed id v (rw eq at (sym (user_at-saved id) ∙ stored))
        ]
