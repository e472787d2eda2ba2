-- ===== src/Storage/Etcd/Laws.antt =====
-- What the indices of the driver of service/storage/keyvalue_etcd.go do over a cluster of etcd, whose
-- keys are read as the users and the three indices.
use Prim.Native.String.{◌++◌}
use Prim.Native.Char.{code}
use text.Mathlib.TextLemmas.{append_assoc}
use userd.Common.{
  ℕ, String, ◌≡◌, ◌≢◌, ◌↔◌, refl, sym, ap, ◌∙◌, ◌==◌, ◌&&◌, ◌||◌, Bool, false, Option, none, some,
  inl, inr, Option-cases, nat_eq, if◌then◌else◌,
}
use userd.Common.Table.{Table, insert, erase}
use userd.Errors.{Error, ErrGo, mask_all}
use userd.Exec.{Outcome, ok, err, map_outcome}
use userd.Storage.Interface.{Field, login_names, emails, reset_password_tokens, same_field}
use userd.Storage.Tables.{Tables, update_entries}
use userd.Storage.Keys.{
  Space, prefix, prefix_eq, within, same_space, tables_of, insert-table_at, erase-table_at,
  same_tables,
}
use userd.Storage.Etcd.{
  RawResponse, EtcdClient, EtcdStorageDriver, etcd_key, path, create, read_response, lookup_index,
  remove_index, etcd_index_put, etcd_index_remove, etcd_index_lookup,
}

abbrev behind : Space → String
behind none = "ser/"
behind (some login_names) = "ogin_name/"
behind (some emails) = "mails/"
behind (some reset_password_tokens) = "eset_password_token/"

-- The names that newKeyValueStorage gives to the indices.
abbrev pub index_name : Field → String
index_name login_names = "login_name"
index_name emails = "emails"
index_name reset_password_tokens = "reset_password_token"

abbrev pub space_name : Space → String
space_name none = "user"
space_name (some f) = index_name f

abbrev pub cluster_key : String → Space → String → String
unfolding etcd_key
cluster_key dir a key = etcd_key dir (space_name a) key

regroup : (x index key : String) → ((x ++ index) ++ "/") ++ key ≡ x ++ ((index ++ "/") ++ key)
regroup x index key =
    append_assoc (x ++ index) "/" key
    ∙ append_assoc x index ("/" ++ key)
    ∙ ap (λ t. x ++ t) (sym (append_assoc index "/" key))

-- A path is the directory, a slash, and what tells the spaces apart.
split :
    (dir : String) (a : Space) (key : String)
    → cluster_key dir a key ≡ (dir ++ "/") ++ (prefix behind a ++ key)
unfolding etcd_key
split dir none key = regroup (dir ++ "/") "user" key
split dir (some login_names) key = regroup (dir ++ "/") "login_name" key
split dir (some emails) key = regroup (dir ++ "/") "emails" key
split dir (some reset_password_tokens) key = regroup (dir ++ "/") "reset_password_token" key

pub cluster_key_eq :
    (dir : String) (a b : Space) (j k : String)
    → (cluster_key dir a j == cluster_key dir b k) ≡ (same_space a b && j == k)
unfolding etcd_key
cluster_key_eq dir a b j k =
    rw (split dir a j, split dir b k)
      (within (dir ++ "/") (prefix behind a ++ j) (prefix behind b ++ k) ∙ prefix_eq behind a b j k)

-- A text with a slash; a name that is one step of a path.
unfoldable pub has_slash : String → Bool
has_slash String.[] = false
has_slash (String.◌∷◌ c s) = nat_eq (code c) 47 || has_slash s

pub record IsName (name : String) : Type 0 where
  pub filled : name ≢ ""
  pub plain : has_slash name ≡ false
  pub not_here : name ≢ "."
  pub not_up : name ≢ ".."

-- What the program relies on in etcd, at the keys of the driver whose last step is a name: where no
-- such key is a directory of the cluster and none of the directories that hold them is a value, the
-- values under the keys; Create fails and changes nothing where the key exists, Delete where it does
-- not; RawGet answers 404 for a key that does not exist, and else another status with the value.
pub record IsCluster {S : Type 0} (dir : String) (client : EtcdClient S) : Type 1 where
  pub contents : S → Table
  pub IsFlat : S → Type 0
  pub create_fresh :
      (a : Space) (name value : String) (ttl : ℕ) (s : S)
      → IsName name
      → IsFlat s
      → contents s (cluster_key dir a name) ≡ none
      → ((client.client_create (cluster_key dir a name) value ttl s).0 ≡ ok tt)
        × (contents (client.client_create (cluster_key dir a name) value ttl s).1
            ≡ insert (cluster_key dir a name) value (contents s))
  pub create_existing :
      (a : Space) (name value old : String) (ttl : ℕ) (s : S)
      → IsName name
      → IsFlat s
      → contents s (cluster_key dir a name) ≡ some old
      → (e : Error) × ((client.client_create (cluster_key dir a name) value ttl s).0 ≡ err e)
        × (contents (client.client_create (cluster_key dir a name) value ttl s).1 ≡ contents s)
  pub create_flat :
      (a : Space) (name value : String) (ttl : ℕ) (s : S)
      → IsName name
      → IsFlat s
      → IsFlat (client.client_create (cluster_key dir a name) value ttl s).1
  pub get_missing :
      (a : Space) (name : String) (s : S)
      → IsName name
      → IsFlat s
      → contents s (cluster_key dir a name) ≡ none
      → (raw : RawResponse) × ((client.raw_get (cluster_key dir a name) s).0 ≡ ok raw)
        × (raw.status_code ≡ 404)
  pub get_existing :
      (a : Space) (name value : String) (s : S)
      → IsName name
      → IsFlat s
      → contents s (cluster_key dir a name) ≡ some value
      → (raw : RawResponse) × ((client.raw_get (cluster_key dir a name) s).0 ≡ ok raw)
        × (nat_eq raw.status_code 404 ≡ false)
        × (raw.unmarshal ≡ ok value)
  pub get_same :
      (a : Space) (name : String) (s : S)
      → IsName name
      → IsFlat s
      → (contents (client.raw_get (cluster_key dir a name) s).1 ≡ contents s)
        × IsFlat (client.raw_get (cluster_key dir a name) s).1
  pub delete_same :
      (a : Space) (name : String) (s : S)
      → IsName name
      → IsFlat s
      → (contents (client.client_delete (cluster_key dir a name) s).1
          ≡ erase (cluster_key dir a name) (contents s))
        × IsFlat (client.client_delete (cluster_key dir a name) s).1

masked_err :
    (mask : Error → Error) {o : Outcome (Unit {0})} {e : Error}
    → o ≡ err e
    → map_outcome mask (map_outcome mask o) ≢ ok tt
masked_err mask refused accepted = cc

some_present : {o : Option String} {x : String} → o ≡ some x → o ≢ none
some_present there absent = cc

-- An entry that is written only where there is none.
abbrev pub insert_absent : String → String → Table → Table
insert_absent key id m = elim (m key) [ none ↦ insert key id m | some _ ↦ m ]

module _ (key id : String) (entries : Field → Table) where
  absent_at :
      (f h : Field)
      → entries f key ≡ none
      → (if same_field f h then insert key id (entries h) else entries h)
        ≡ update_entries f (insert_absent key id) entries h
  absent_at login_names login_names e = rw (insert_absent, e)
  absent_at emails emails e = rw (insert_absent, e)
  absent_at reset_password_tokens reset_password_tokens e = rw (insert_absent, e)
  absent_at login_names emails e = refl
  absent_at login_names reset_password_tokens e = refl
  absent_at emails login_names e = refl
  absent_at emails reset_password_tokens e = refl
  absent_at reset_password_tokens login_names e = refl
  absent_at reset_password_tokens emails e = refl

  present_at :
      (f h : Field) (old : String)
      → entries f key ≡ some old
      → entries h ≡ update_entries f (insert_absent key id) entries h
  present_at login_names login_names old e = rw (insert_absent, e)
  present_at emails emails old e = rw (insert_absent, e)
  present_at reset_password_tokens reset_password_tokens old e = rw (insert_absent, e)
  present_at login_names emails old e = refl
  present_at login_names reset_password_tokens old e = refl
  present_at emails login_names old e = refl
  present_at emails reset_password_tokens old e = refl
  present_at reset_password_tokens login_names old e = refl
  present_at reset_password_tokens emails old e = refl

module _ (g : ErrGo) {S : Type 0} (d : EtcdStorageDriver S)
    (cluster : IsCluster d.dir d.client) where
  abbrev pub view : S → Tables
  view s = tables_of (cluster_key d.dir) (cluster.contents s)

  module _ (f : Field) (key : String) (s : S) (is_name : IsName key) (flat : cluster.IsFlat s) where
    abbrev place : String
    place = cluster_key d.dir (some f) key

    -- Put, at a key that is not there and at one that is.
    put_lem :
        (id : String)
        → (((etcd_index_put g d (index_name f) key id s).0 ≡ ok tt)
            ↔ ((view s).entries f key ≡ none))
          × (view (etcd_index_put g d (index_name f) key id s).1 ≡ record (view s) {
            entries = update_entries f (insert_absent key id) (view s).entries;
          })
    unfolding etcd_index_put create path etcd_key
    put_lem id = elim (Option-cases (cluster.contents s place)) [
      | inl absent ↦
          let (accepted, written) =
            cluster.create_fresh (some f) key id d.ttl s is_name flat absent in
          (
            ((λ _. absent), (λ _. rw accepted)),
            ap (tables_of (cluster_key d.dir)) written
                ∙ same_tables
                    (insert-table_at (cluster_key d.dir) (cluster_key_eq d.dir) (some f) none key id
                      (cluster.contents s))
                    (λ h.
                      insert-table_at (cluster_key d.dir) (cluster_key_eq d.dir) (some f) (some h)
                        key id (cluster.contents s)
                      ∙ absent_at key id (view s).entries f h absent),
          )
      | inr (old, there) ↦
          let (e, refused, kept) =
            cluster.create_existing (some f) key id old d.ttl s is_name flat there in
          (
            (
              (λ accepted. absurd (masked_err (mask_all g) refused accepted)),
              (λ absent. absurd (some_present there absent)),
            ),
            ap (tables_of (cluster_key d.dir)) kept
                ∙ same_tables refl (λ h. present_at key id (view s).entries f h old there),
          )
    ]

    remove_lem :
        view (etcd_index_remove g d (index_name f) key s).1
        ≡ record (view s) { entries = update_entries f (erase key) (view s).entries }
    unfolding etcd_index_remove remove_index path etcd_key
    remove_lem =
        ap (tables_of (cluster_key d.dir)) (cluster.delete_same (some f) key s is_name flat).0
        ∙ same_tables
            (erase-table_at (cluster_key d.dir) (cluster_key_eq d.dir) (some f) none key
              (cluster.contents s))
            (λ h.
              erase-table_at (cluster_key d.dir) (cluster_key_eq d.dir) (some f) (some h) key
                (cluster.contents s))

    lookup_lem :
        etcd_index_lookup g d (index_name f) key s
        ≡ (ok ((view s).entries f key), (d.client.raw_get place s).1)
    unfolding etcd_index_lookup lookup_index read_response path etcd_key
    lookup_lem = elim (Option-cases (cluster.contents s place)) [
      | inl absent ↦
          let (raw, reply, missing) = cluster.get_missing (some f) key s is_name flat absent in
          rw (reply, missing, absent)
      | inr (value, there) ↦
          let (raw, reply, is_there, reads) =
            cluster.get_existing (some f) key value s is_name flat there in
          rw (reply, is_there, reads, there)
    ]

  -- Over a cluster in which no key of the driver is a directory and none of the directories of those
  -- keys is a value, at a key that is not empty, has no slash and is neither "." nor "..": Put of an
  -- index of the etcd driver enters a key that is not there, and fails and changes nothing where it is;
  -- Remove takes the key away; Lookup returns the owner, or none, and changes nothing. The users and
  -- the other indices stay, and the cluster stays of that kind. That etcd keeps the values under such
  -- keys is assumed.
  pub etcd_index_lem :
      (f : Field) (key id : String) (s : S)
      → IsName key
      → cluster.IsFlat s
      → (((etcd_index_put g d (index_name f) key id s).0 ≡ ok tt) ↔ ((view s).entries f key ≡ none))
        × (view (etcd_index_put g d (index_name f) key id s).1 ≡ record (view s) {
          entries = update_entries f (insert_absent key id) (view s).entries;
        })
        × (view (etcd_index_remove g d (index_name f) key s).1
            ≡ record (view s) { entries = update_entries f (erase key) (view s).entries })
        × ((etcd_index_lookup g d (index_name f) key s).0 ≡ ok ((view s).entries f key))
        × (view (etcd_index_lookup g d (index_name f) key s).1 ≡ view s)
        × cluster.IsFlat (etcd_index_put g d (index_name f) key id s).1
        × cluster.IsFlat (etcd_index_remove g d (index_name f) key s).1
        × cluster.IsFlat (etcd_index_lookup g d (index_name f) key s).1
  unfolding etcd_index_put create etcd_index_remove remove_index path etcd_key
  etcd_index_lem f key id s is_name flat =
      let (put, put_view) = put_lem f key s is_name flat id in
      let (same, still) = cluster.get_same (some f) key s is_name flat in
      let read = lookup_lem f key s is_name flat in
      (
        put,
        put_view,
        remove_lem f key s is_name flat,
        ap (λ r. r.0) read,
        ap (λ r. view r.1) read ∙ ap (tables_of (cluster_key d.dir)) same,
        cluster.create_flat (some f) key id d.ttl s is_name flat,
        (cluster.delete_same (some f) key s is_name flat).1,
        rw read still,
      )
