-- ===== src/Storage/Keys.antt =====
-- How a driver that has one table of texts keeps the users and the three indices apart: each has keys of
-- its own (service/storage/keyvalue_redis.go and keyvalue_etcd.go).
use Prim.Native.Char.{Char, code}
use Prim.Native.String.{◌++◌}
use text.Mathlib.TextLemmas.{append_cancel_left, cons-append}
use userd.Common.{
  ℕ, String, ◌≡◌, ◌≢◌, sym, ap, ◌∙◌, fun_ext, arith, eq_iff, ◌==◌, ◌&&◌, Bool, true, false, Option,
  none, some, inl, inr, text_cases, Bool-cases, if◌then◌else◌,
}
use userd.Common.Table.{Table, insert, erase}
use userd.Storage.Interface.{Field, login_names, emails, reset_password_tokens, same_field}
use userd.Storage.Tables.{Tables}

-- The users, or an index.
abbrev pub Space : Type 0
Space = Option Field

abbrev pub initial : Space → Char
initial none = "u"
initial (some login_names) = "l"
initial (some emails) = "e"
initial (some reset_password_tokens) = "r"

abbrev pub same_space : Space → Space → Bool
same_space none none = true
same_space (some f) (some h) = same_field f h
same_space _ _ = false

abbrev head_code : String → ℕ
head_code String.[] = 0
head_code (String.◌∷◌ c s) = code c

head_code-append : (c : Char) (s t : String) → head_code (String.◌∷◌ c s ++ t) ≡ code c
head_code-append c s t = rw cons-append

-- Behind one text, two keys are the same exactly when their ends are.
pub within : (p j k : String) → (p ++ j == p ++ k) ≡ (j == k)
within p j k = elim (text_cases j k) [
  | inl (same, e) ↦ rw same ((eq_iff (p ++ j) (p ++ k)).1 (ap (λ t. p ++ t) e))
  | inr (differs, ne) ↦ elim (text_cases (p ++ j) (p ++ k)) [
    | inl (_, e) ↦ absurd (ne (append_cancel_left p j k e))
    | inr (other, _) ↦ rw differs other
  ]
]

-- Prefixes that begin with different letters.
module _ (behind : Space → String) where
  abbrev pub prefix : Space → String
  prefix a = String.◌∷◌ (initial a) (behind a)

  apart :
      (a b : Space) (j k : String)
      → code (initial a) ≢ code (initial b)
      → (prefix a ++ j == prefix b ++ k) ≡ false
  apart a b j k ne = elim (text_cases (prefix a ++ j) (prefix b ++ k)) [
    | inl (_, e) ↦ absurd (
        ne (
          sym (head_code-append (initial a) (behind a) j)
          ∙ ap head_code e
          ∙ head_code-append (initial b) (behind b) k))
    | inr (other, _) ↦ other
  ]

  pub prefix_eq :
      (a b : Space) (j k : String) → (prefix a ++ j == prefix b ++ k) ≡ (same_space a b && j == k)
  prefix_eq none none j k = within (prefix none) j k
  prefix_eq (some login_names) (some login_names) j k = within (prefix (some login_names)) j k
  prefix_eq (some emails) (some emails) j k = within (prefix (some emails)) j k
  prefix_eq (some reset_password_tokens) (some reset_password_tokens) j k =
      within (prefix (some reset_password_tokens)) j k
  prefix_eq none (some login_names) j k = apart none (some login_names) j k (omega arith)
  prefix_eq none (some emails) j k = apart none (some emails) j k (omega arith)
  prefix_eq a b j k = apart a b j k (omega arith)

-- The tables that one table of texts stands for, under keys that do not meet.
module _ (key_of : Space → String → String) where
  abbrev pub table_at : Table → Space → Table
  table_at c a key = c (key_of a key)

  abbrev pub tables_of : Table → Tables
  tables_of c = record { users = table_at c none; entries = λ f. table_at c (some f) }

  module _
      (distinct : (a b : Space) (j k : String)
        → (key_of a j == key_of b k) ≡ (same_space a b && j == k)) where
    -- A write under a key of one space is a write to its table.
    pub insert-table_at :
        (a b : Space) (key value : String) (c : Table)
        → table_at (insert (key_of a key) value c) b
          ≡ (if same_space a b then insert key value (table_at c b) else table_at c b)
    insert-table_at a b key value c = fun_ext (λ k.
        rw (distinct a b key k)
          (elim (Bool-cases (same_space a b)) [ inl e ↦ rw e | inr e ↦ rw e ]))

    pub erase-table_at :
        (a b : Space) (key : String) (c : Table)
        → table_at (erase (key_of a key) c) b
          ≡ (if same_space a b then erase key (table_at c b) else table_at c b)
    erase-table_at a b key c = fun_ext (λ k.
        rw (distinct a b key k)
          (elim (Bool-cases (same_space a b)) [ inl e ↦ rw e | inr e ↦ rw e ]))

-- Two descriptions of tables that agree.
pub same_tables :
    {u u' : Table} {e e' : Field → Table}
    → u ≡ u'
    → ((f : Field) → e f ≡ e' f)
    → Path Tables (record { users = u; entries = e }) (record { users = u'; entries = e' })
same_tables p q i = record { users = p i; entries = fun_ext q i }
