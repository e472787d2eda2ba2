-- ===== src/Storage/Save.antt =====
-- `Save`, `Get` and the `FindBy` methods of keyvalue.go over consistent tables: every branch.
use userd.Common.{
  String, ◌≡◌, ◌≢◌, refl, sym, ◌∙◌, inl, inr, Bool, true, false, not, ◌&&◌, some, Option-cases,
  ◌==◌, eq_iff, if◌then◌else◌, if_branches, arith,
}
use userd.Errors.{
  ErrGo, known, mask_all, invalid_user_object, email_already_taken, login_name_already_taken,
}
use userd.User.{User}
use userd.Exec.{Outcome, ok, err}
use userd.Storage.Interface.{UserCodec, Field, login_names, emails, reset_password_tokens, value}
use userd.Storage.KeyValue.{
  taken_by_other, check_taken_by_other_user, check_token, decode, no_lock_lookup, write, save_valid,
  save,
}
use userd.Storage.Directory.{
  IsTaken, Saving, done, incomplete, taken, taken_error, IsIncomplete, found,
}
use userd.Storage.Tables.{Tables, tables_storage}
use userd.Storage.Consistency.{user_at, IsConsistent, saved}
use userd.Storage.Consistency.Write.{replace_lem}
use userd.Storage.Consistency.Preserved.{old_of, saved-IsConsistent, user_at-saved}

module _ (g : ErrGo) (json : UserCodec) where
  pub no_lock_lookup_lem :
      (t : Tables) (id : String)
      → IsConsistent json t
      → no_lock_lookup g json tables_storage id t ≡ (found (user_at json t id), t)
  unfolding no_lock_lookup decode
  no_lock_lookup_lem t id c = elim (Option-cases (t.users id)) [
    | inl absent ↦ rw absent
    | inr (text, stored) ↦ let (u, e) = c.readable id text stored in rw stored (rw e)
  ]

  module _ (t : Tables) (c : IsConsistent json t) (u : User) (text : String)
      (marshalled : json.marshal u ≡ ok text) where
    abbrev pub written : Tables
    written = saved (old_of (user_at json t u.id)) u text t

    -- Another user is entered under the value of the field.
    abbrev pub is_taken : Field → Bool
    is_taken f = taken_by_other (t.entries f (value f u)) u.id

    pub write_lem :
        (u.email == "") ≡ false
        → (u.login_name == "") ≡ false
        → write g json tables_storage u t ≡ (ok tt, written)
    unfolding write
    write_lem he hl = elim (Option-cases (user_at json t u.id)) [
      | inl absent ↦
          rw (no_lock_lookup_lem t u.id c, absent) (replace_lem g json _ u t text he hl marshalled)
      | inr (old, stored) ↦
          rw (no_lock_lookup_lem t u.id c, stored)
            (replace_lem g json old u t text he hl marshalled)
    ]

    -- The branches of `Save`, in the order of the code.
    abbrev pub save_branches : Outcome (Unit {0}) × Tables
    save_branches =
        if u.id == ""
        then (err (mask_all g (known invalid_user_object)), t)
        else if u.email == ""
        then (err (mask_all g (known invalid_user_object)), t)
        else if u.login_name == ""
        then (err (mask_all g (known invalid_user_object)), t)
        else if is_taken emails
        then (err (known email_already_taken), t)
        else if is_taken login_names
        then (err (known login_name_already_taken), t)
        else if not (u.reset_password_token == "") && is_taken reset_password_tokens
        then (err (known login_name_already_taken), t)
        else (ok tt, written)

    pub save_lem : save g json tables_storage u t ≡ save_branches
    unfolding save save_valid check_token check_taken_by_other_user
    save_lem = ground (arith, write_lem)

    -- No check fails exactly if no other user has a value of u.
    is_taken_lem : (f : Field) → is_taken f ≡ true → value f u ≢ "" → IsTaken (user_at json t) u f
    is_taken_lem f e h = elim (Option-cases (t.entries f (value f u))) [
      | inl absent ↦ ground arith
      | inr (owner, entry) ↦
          let (other, stored, same, filled) = c.owned f (value f u) owner entry in
          record {
            owner = owner;
            other = other;
            stored = stored;
            same = same;
            filled = filled;
            distinct = λ mine. ground (arith, eq_iff owner u.id);
          }
    ]

    free_lem :
        ((f : Field) → value f u ≢ "" → is_taken f ≡ false)
        → (f : Field) (id : String) → value f u ≢ ""
        → t.entries f (value f u) ≡ some id
        → id ≡ u.id
    free_lem free f id h entry = ground (arith, free f h, eq_iff id u.id)

    abbrev Outcomes : Outcome (Unit {0}) × Tables → Type 0
    Outcomes r = Saving g (user_at json t) u r.0 (user_at json r.1) × IsConsistent json r.1

    token_free :
        not (u.reset_password_token == "") && is_taken reset_password_tokens ≡ false
        → u.reset_password_token ≢ ""
        → is_taken reset_password_tokens ≡ false
    token_free e h = ground (arith, eq_iff u.reset_password_token "")

    -- The last branch: the checks passed, and the user is written.
    stored_outcome :
        u.id ≢ ""
        → u.email ≢ ""
        → u.login_name ≢ ""
        → ((f : Field) → value f u ≢ "" → is_taken f ≡ false)
        → Outcomes (ok tt, written)
    stored_outcome hi he hl free = (
      done refl (elim [ inl e ↦ hi e | inr (inl e) ↦ he e | inr (inr e) ↦ hl e ])
          (λ f id v at same filled.
            free_lem free f id filled
              (rw (← same) (c.indexed f id v at (λ z. filled (sym same ∙ z)))))
          (user_at-saved json t c u text read_back),
      saved-IsConsistent json t c u text read_back (free_lem free) hi he hl,
    )
      where
        read_back : json.unmarshal text ≡ ok u
        read_back = json.unmarshal-marshal u text marshalled

    -- A branch that fails leaves the tables as they are.
    taken_outcome :
        (f : Field) → is_taken f ≡ true → value f u ≢ "" → Outcomes (err (known (taken_error f)), t)
    taken_outcome f e h = (taken f refl (is_taken_lem f e h) (λ i. refl), c)

    incomplete_outcome : IsIncomplete u → Outcomes (err (mask_all g (known invalid_user_object)), t)
    incomplete_outcome h = (incomplete refl h (λ i. refl), c)

    is_empty : {s : String} → (s == "") ≡ true → s ≡ ""
    is_empty {s} e = (eq_iff s "").0 e

    is_filled : {s : String} → (s == "") ≡ false → s ≢ ""
    is_filled {s} e z = ground (arith, eq_iff s "")

    checked_outcome :
        u.id ≢ ""
        → u.email ≢ ""
        → u.login_name ≢ ""
        → Outcomes (
            if is_taken emails
            then (err (known email_already_taken), t)
            else if is_taken login_names
            then (err (known login_name_already_taken), t)
            else if not (u.reset_password_token == "") && is_taken reset_password_tokens
            then (err (known login_name_already_taken), t)
            else (ok tt, written))
    checked_outcome hi he hl =
        if_branches Outcomes (is_taken emails) (λ e. taken_outcome emails e he)
          λ e.
            if_branches Outcomes (is_taken login_names) (λ l. taken_outcome login_names l hl)
              λ l.
                if_branches Outcomes
                  (not (u.reset_password_token == "") && is_taken reset_password_tokens)
                  (λ r.
                    taken_outcome reset_password_tokens (ground arith) (is_filled (ground arith)))
                  (λ r. stored_outcome hi he hl (elim [
                    | login_names ↦ λ _. l
                    | emails ↦ λ _. e
                    | reset_password_tokens ↦ token_free r
                  ]))

    -- Save does what its specification says, and keeps the tables consistent.
    pub save-Outcomes : Outcomes (save g json tables_storage u t)
    save-Outcomes = rw save_lem (
        if_branches Outcomes (u.id == "") (λ i. incomplete_outcome (inl (is_empty i)))
          λ i.
            if_branches Outcomes (u.email == "") (λ e. incomplete_outcome (inr (inl (is_empty e))))
              λ e.
                if_branches Outcomes (u.login_name == "")
                  (λ l. incomplete_outcome (inr (inr (is_empty l))))
                  (λ l. checked_outcome (is_filled i) (is_filled e) (is_filled l)))
