-- ===== src/Tests/Etcd.antt =====
-- An etcd cluster as a table of texts, and an index of the etcd driver over it.
use userd.Common.{String, ◌≡◌, ◌↔◌, refl, ap, Option, none, some, arith, eq_iff}
use userd.Common.Table.{Table, empty, insert, erase}
use userd.Errors.{foreign}
use userd.Errors.Instance.{errgo}
use userd.Exec.{Outcome, ok, err}
use userd.Storage.Interface.{emails}
use userd.Storage.Tables.{update_entries}
use userd.Storage.Etcd.{
  RawResponse, EtcdClient, EtcdStorageDriver, etcd_index_put, etcd_index_remove, etcd_index_lookup,
}
use userd.Storage.Etcd.Laws.{
  IsCluster, IsName, has_slash, cluster_key, view, insert_absent, etcd_index_lem,
}

abbrev created : Option String → (key value : String) → Table → Outcome (Unit {0}) × Table
created none key value c = (ok tt, insert key value c)
created (some old) key value c = (err (foreign 105), c)

abbrev deleted : Option String → String → Table → Outcome (Unit {0}) × Table
deleted none key c = (err (foreign 100), erase key c)
deleted (some old) key c = (ok tt, erase key c)

abbrev response : Option String → RawResponse
response none = record { status_code = 404; unmarshal = err (foreign 0) }
response (some value) = record { status_code = 200; unmarshal = ok value }

abbrev client : EtcdClient Table
client = record {
  client_set = λ key value ttl c. (ok tt, insert key value c);
  client_create = λ key value ttl c. created (c key) key value c;
  client_delete = λ key c. deleted (c key) key c;
  raw_get = λ key c. (ok (response (c key)), c);
}

deleted_contents :
    (o : Option String) (key : String) (c : Table) → (deleted o key c).1 ≡ erase key c
deleted_contents none key c = refl
deleted_contents (some old) key c = refl

abbrev client-IsCluster : IsCluster "moinz.de/userd" client
client-IsCluster = record {
  contents = λ c. c;
  IsFlat = λ c. Unit {0};
  create_fresh = λ a name value ttl c _ _ e.
      let key = cluster_key "moinz.de/userd" a name in
      (ap (λ o. (created o key value c).0) e, ap (λ o. (created o key value c).1) e);
  create_existing = λ a name value old ttl c _ _ e.
      let key = cluster_key "moinz.de/userd" a name in
      (foreign 105, ap (λ o. (created o key value c).0) e, ap (λ o. (created o key value c).1) e);
  create_flat = λ a name value ttl c _ _. tt;
  get_missing = λ a name c _ _ e. (response none, ap (λ o. ok (response o)) e, refl);
  get_existing =
      λ a name value c _ _ e. (response (some value), ap (λ o. ok (response o)) e, refl, refl);
  get_same = λ a name c _ _. (refl, tt);
  delete_same = λ a name c _ _.
      let key = cluster_key "moinz.de/userd" a name in (deleted_contents (c key) key c, tt);
}

ann-IsName : IsName "ann@x"
unfolding has_slash
ann-IsName = record {
  filled = λ e. ground (arith, eq_iff "ann@x" "");
  plain = refl;
  not_here = λ e. ground (arith, eq_iff "ann@x" ".");
  not_up = λ e. ground (arith, eq_iff "ann@x" "..");
}

abbrev driver : EtcdStorageDriver Table
driver = record { client = client; dir = "moinz.de/userd"; ttl = 0 }

etcd_index_lem_example :
    (((etcd_index_put errgo driver "emails" "ann@x" "1" empty).0 ≡ ok tt)
      ↔ ((view errgo driver client-IsCluster empty).entries emails "ann@x" ≡ none))
    × (view errgo driver client-IsCluster (etcd_index_put errgo driver "emails" "ann@x" "1" empty).1
        ≡ record (view errgo driver client-IsCluster empty) {
          entries =
              update_entries emails
                (insert_absent "ann@x" "1")
                (view errgo driver client-IsCluster empty).entries;
        })
    × (view errgo driver client-IsCluster (etcd_index_remove errgo driver "emails" "ann@x" empty).1
        ≡ record (view errgo driver client-IsCluster empty) {
          entries =
              update_entries emails
                (erase "ann@x")
                (view errgo driver client-IsCluster empty).entries;
        })
    × ((etcd_index_lookup errgo driver "emails" "ann@x" empty).0
        ≡ ok ((view errgo driver client-IsCluster empty).entries emails "ann@x"))
    × (view errgo driver client-IsCluster (etcd_index_lookup errgo driver "emails" "ann@x" empty).1
        ≡ view errgo driver client-IsCluster empty)
    × Unit {0}
    × Unit {0}
    × Unit {0}
etcd_index_lem_example =
    etcd_index_lem errgo driver client-IsCluster emails "ann@x" "1" empty ann-IsName tt
