-- ===== src/Storage/Contract.antt =====
-- The storage of keyvalue.go over any lawful driver keeps the promises of `IsDirectory`.
use userd.Common.{String, ◌≡◌, ◌≢◌, refl, ap, ◌∙◌, inl, inr, some}
use userd.Errors.{ErrGo}
use userd.User.{User}
use userd.Exec.{ok, panic}
use userd.Storage.Interface.{KeyValueStorage, UserCodec, Field, find}
use userd.Storage.KeyValue.{save, get, user_storage}
use userd.Storage.Tables.{no_tables}
use userd.Storage.Refinement.{IsLawful, save-Follows, get-Follows, find-Follows}
use userd.Storage.Directory.{Directory, Saving, Finding, IsDirectory, IsIncomplete, found}
use userd.Storage.Consistency.{user_at, IsConsistent}
use userd.Storage.Consistency.Unique.{value_unique}
use userd.Storage.Save.{save-Outcomes}
use userd.Storage.Find.{get_lem, get-state, find_outcomes}

-- Empty tables are consistent.
pub no_tables-IsConsistent : {json : UserCodec} → IsConsistent json no_tables
no_tables-IsConsistent = record {
  readable = λ id text h. cc;
  well_formed = λ id u h. cc;
  indexed = λ f id u h. cc;
  owned = λ f key id h. cc;
}

module _ (g : ErrGo) (json : UserCodec) {S : Type 0} (kv : KeyValueStorage S)
    (lawful : IsLawful kv) where
  abbrev pub IsValid : S → Type 0
  IsValid s = IsConsistent json (lawful.view s)

  abbrev pub users : S → Directory
  users s = user_at json (lawful.view s)

  abbrev pub IsStorable : User → Type 0
  IsStorable u = (text : String) × (json.marshal u ≡ ok text)

  pub well_formed :
      (s : S)
      → IsValid s
      → (id : String) (u : User) → users s id ≡ some u
      → (u.id ≡ id) × (¬ IsIncomplete u)
  well_formed s c id u at =
      let (own, hi, he, hl) = c.well_formed id u at in
      (own, elim [ inl e ↦ hi e | inr (inl e) ↦ he e | inr (inr e) ↦ hl e ])

  -- Over a lawful driver, from a valid state and for a user that can be encoded, Save stores the user
  -- if it has an id, an email and a login name and no other user has a value of its; else it fails
  -- with the error of the branch and changes no user. The state stays valid.
  pub save-Saving :
      (s : S)
      → IsValid s
      → (u : User) → IsStorable u
      → Saving g (users s) u (save g json kv u s).0 (users (save g json kv u s).1)
        × IsValid (save g json kv u s).1
  save-Saving s c u (text, m) =
      let f = save-Follows g json kv lawful u in
      rw (f.outcome s, f.state s) (save-Outcomes g json (lawful.view s) c u text m)

  pub got : (s : S) → IsValid s → (id : String) → lawful.view (get g json kv id s).1 ≡ lawful.view s
  got s c id = (get-Follows g json kv lawful id).state s ∙ get-state g json (lawful.view s) c id

  pub searched :
      (s : S)
      → IsValid s
      → (f : Field) (key : String)
      → lawful.view (find (user_storage g json kv) f key s).1 ≡ lawful.view s
  searched s c f key =
      (find-Follows g json kv lawful f key).state s
      ∙ (find_outcomes g json (lawful.view s) c f key).1

  -- Over a lawful driver and from a valid state, each FindBy method returns the stored user with the
  -- value, which is not empty, or UserNotFound when no user has the value or it is empty.
  pub find-Finding :
      (s : S)
      → IsValid s
      → (f : Field) (key : String)
      → Finding (users s) f key (find (user_storage g json kv) f key s).0
  find-Finding s c f key =
      rw ((find-Follows g json kv lawful f key).outcome s)
        ((find_outcomes g json (lawful.view s) c f key).0)

  pub outcome :
      (s : S) → IsValid s → (id : String) → id ≢ "" → (get g json kv id s).0 ≡ found (users s id)
  outcome s c id h =
      (get-Follows g json kv lawful id).outcome s
      ∙ ap (λ r. r.0) (get_lem g json (lawful.view s) c id h)

  pub empty_id : (s : S) → (get g json kv "" s).0 ≡ panic
  unfolding get
  empty_id s = refl

  -- A storage over a lawful driver keeps every promise of the contract.
  abbrev pub keyvalue-IsDirectory : IsDirectory g (user_storage g json kv)
  unfolding user_storage
  keyvalue-IsDirectory = record {
    IsValid = IsValid;
    users = users;
    IsStorable = IsStorable;
    well_formed = well_formed;
    unique = λ s c. value_unique json (lawful.view s) c;
    get-outcome = outcome;
    get-empty = empty_id;
    get-users = λ s c id i. ap (λ t. user_at json t i) (got s c id);
    get-IsValid = λ s c id. rw (got s c id) c;
    finding = find-Finding;
    find-users = λ s c f key i. ap (λ t. user_at json t i) (searched s c f key);
    find-IsValid = λ s c f key. rw (searched s c f key) c;
    saving = λ s c u m. (save-Saving s c u m).0;
    save-IsValid = λ s c u m. (save-Saving s c u m).1;
  }

  pub empty-IsValid : (s : S) → lawful.view s ≡ no_tables → IsValid s
  empty-IsValid s e = rw e no_tables-IsConsistent
