-- ===== src/Storage/Consistency/Write.antt =====
-- `replace`, the writing part of `Save`, over the plain tables.
use userd.Common.{String, ◌≡◌, refl, ap, fun_ext, false, Bool-cases, inl, inr, ◌==◌, arith}
use userd.Common.Table.{Table, insert, erase}
use userd.Errors.{ErrGo}
use userd.User.{User}
use userd.Exec.{Outcome, ok}
use userd.Storage.Interface.{UserCodec, Field, login_names, emails, reset_password_tokens, value}
use userd.Storage.KeyValue.{remove_old, put_token, replace}
use userd.Storage.Tables.{Tables, update_entries, entry_index, tables_storage}
use userd.Storage.Consistency.{erase_old, insert_new, reindex, saved}

abbrev with_entries : Tables → (Field → Table) → Tables
with_entries t e = record t { entries = e }

-- The entries after a change depend on what the change does to each table.
changed : Field → (Table → Table) → Tables → Outcome (Unit {0}) × Tables
changed f change t = (ok tt, with_entries t (update_entries f change t.entries))

changed-eq :
    (f : Field) (change change' : Table → Table) (t : Tables)
    → ((m : Table) → change m ≡ change' m)
    → changed f change t ≡ changed f change' t
changed-eq f change change' t h = ap (λ c. changed f c t) (fun_ext h)

-- A change that changes no table changes nothing.
unchanged :
    (f : Field) (change : Table → Table) (t : Tables)
    → ((m : Table) → m ≡ change m)
    → (ok tt, t) ≡ changed f change t
unfolding changed
unchanged f change t h =
    ap (λ (x : Field → Table). (ok tt, with_entries t x)) (fun_ext (at_field f))
  where
    at_field : (f i : Field) → t.entries i ≡ update_entries f change t.entries i
    at_field f i = ground (arith, h (t.entries i))

module _ (g : ErrGo) (json : UserCodec) where
  remove_old_lem :
      (f : Field) (old : String) (t : Tables)
      → remove_old g json tables_storage (entry_index f) old t ≡ changed f (erase_old old) t
  unfolding remove_old
  remove_old_lem f old t = elim (Bool-cases (old == "")) [
    | inl e ↦ rw e (unchanged f (erase_old old) t (λ m. rw e))
    | inr e ↦ rw e (unfold changed in changed-eq f (erase old) (erase_old old) t (λ m. rw e))
  ]

  put_token_lem :
      (u : User) (t : Tables)
      → put_token g json tables_storage u t
        ≡ changed reset_password_tokens (insert_new u.reset_password_token u.id) t
  unfolding put_token
  put_token_lem u t = elim (Bool-cases (u.reset_password_token == "")) [
    | inl e ↦ rw e (unchanged reset_password_tokens _ t (λ m. rw e))
    | inr e ↦ rw e (
        unfold changed in
        changed-eq reset_password_tokens (insert u.reset_password_token u.id)
          (insert_new u.reset_password_token u.id) t (λ m. rw e))
  ]

  -- The six changes of the entries, in the order of the code, field by field.
  entries_at :
      (old u : User) (t : Tables) (f : Field)
      → (u.email == "") ≡ false
      → (u.login_name == "") ≡ false
      → update_entries reset_password_tokens
          (insert_new u.reset_password_token u.id)
          (update_entries login_names (insert u.login_name u.id) (
            update_entries emails (insert u.email u.id) (
              update_entries reset_password_tokens (erase_old old.reset_password_token) (
                update_entries login_names
                  (erase_old old.login_name)
                  (update_entries emails (erase_old old.email) t.entries)))))
          f
        ≡ reindex (value f old) (value f u) u.id (t.entries f)
  entries_at old u t login_names he hl = rw hl
  entries_at old u t emails he hl = rw he
  entries_at old u t reset_password_tokens he hl = refl

  -- Replacing a user by one with an email and a login name changes each index by the old and the
  -- new value of its field.
  pub replace_lem :
      (old u : User) (t : Tables) (text : String)
      → (u.email == "") ≡ false
      → (u.login_name == "") ≡ false
      → json.marshal u ≡ ok text
      → replace g json tables_storage old u t ≡ (ok tt, saved old u text t)
  unfolding replace changed
  replace_lem old u t text he hl hm =
      rw
        (
          remove_old_lem emails old.email,
          remove_old_lem login_names old.login_name,
          remove_old_lem reset_password_tokens old.reset_password_token,
          put_token_lem u,
          hm,
        )
        (ap
          (λ (x : Field → Table). (ok tt, record { users = insert u.id text t.users; entries = x }))
          (fun_ext (λ f. entries_at old u t f he hl)))
