-- ===== src/Storage/Race.antt =====
-- Two calls of Save in service/storage/keyvalue.go at the same time: it takes no lock, so that another
-- Save may run between its checks and its writes.
use userd.Common.{
  String, ◌≡◌, ◌≢◌, refl, ◌∙◌, Bool, true, false, some, ◌==◌, eq_iff, if◌then◌else◌, arith,
}
use userd.Errors.{
  ErrGo, known, mask_all, invalid_user_object, email_already_taken, login_name_already_taken,
}
use userd.User.{User}
use userd.Exec.{Outcome, ok, Exec, pure, fail, map_error, ◌>>=◌, ◌>>◌}
use userd.Storage.Interface.{UserCodec, KeyValueStorage, emails}
use userd.Storage.KeyValue.{check_taken_by_other_user, check_token, save_valid, save, write}
use userd.Storage.Tables.{Tables, tables_storage}
use userd.Storage.Consistency.{user_at, IsConsistent}
use userd.Storage.Consistency.Preserved.{user_at-saved}
use userd.Storage.Consistency.Unique.{value_unique}
use userd.Storage.Directory.{Directory, SameUsers, Saving, done, incomplete, taken, store}
use userd.Storage.Save.{written, write_lem, save-Outcomes}

module _ (g : ErrGo) (json : UserCodec) {S : Type 0} (kv : KeyValueStorage S) where
  -- The part of `Save` in front of the comment `Write`.
  unfoldable pub save_checks : User → Exec S (Unit {0})
  save_checks user =
      if user.id == ""
      then fail (mask_all g (known invalid_user_object))
      else if user.email == ""
      then fail (mask_all g (known invalid_user_object))
      else if user.login_name == ""
      then fail (mask_all g (known invalid_user_object))
      else do
        used ←
            map_error (mask_all g) (check_taken_by_other_user g json kv.emails user.email user.id)
        if used then fail (known email_already_taken) else do
          used ←
              map_error (mask_all g)
                (check_taken_by_other_user g json kv.login_names user.login_name user.id)
          if used then fail (known login_name_already_taken) else do
            used ← check_token g json kv user
            if used then fail (known login_name_already_taken) else pure tt

  -- Save(u), while Save(v) runs between its checks and its writes.
  unfoldable pub raced_save : User → User → Exec S (Unit {0})
  raced_save u v = do save_checks u; save g json kv v; write g json kv u

module _ (g : ErrGo) (json : UserCodec) (t : Tables) (c : IsConsistent json t) (u v : User) where
  -- Save is its checks and then its writes.
  save-save_checks :
      save g json tables_storage u t
      ≡ (save_checks g json tables_storage u >> write g json tables_storage u) t
  unfolding save save_valid save_checks check_token check_taken_by_other_user
  save-save_checks = ground arith

  checks_keep : (save_checks g json tables_storage u t).1 ≡ t
  unfolding save_checks check_token check_taken_by_other_user
  checks_keep = ground arith

  checks_filled :
      (save_checks g json tables_storage u t).0 ≡ ok tt
      → ((u.email == "") ≡ false) × ((u.login_name == "") ≡ false)
  unfolding save_checks
  checks_filled e = (ground arith, ground arith)

  stored :
      {r : Outcome (Unit {0})} {d' : Directory}
      → Saving g (user_at json t) v r d'
      → r ≡ ok tt
      → SameUsers d' (store v (user_at json t))
  stored (done _ _ _ now) h = now
  stored (incomplete refused _ _) h = absurd (cc)
  stored (taken f refused _ _) h = absurd (cc)

  module _ (text text' : String) (marshalled : json.marshal u ≡ ok text)
      (marshalled' : json.marshal v ≡ ok text') where
    abbrev between : Tables
    between = (save g json tables_storage v t).1

    between-IsConsistent : IsConsistent json between
    between-IsConsistent = (save-Outcomes g json t c v text' marshalled').1

    -- What the raced call leaves.
    raced_lem :
        (save_checks g json tables_storage u t).0 ≡ ok tt
        → (save g json tables_storage v t).0 ≡ ok tt
        → raced_save g json tables_storage u v t
          ≡ (ok tt, written g json between between-IsConsistent u text marshalled)
    unfolding raced_save
    raced_lem passed saved =
        let (e, l) = checks_filled passed in
        rw (passed, checks_keep, saved)
          (write_lem g json between between-IsConsistent u text marshalled e l)

    abbrev left : Tables
    left = written g json between between-IsConsistent u text marshalled

    -- Both users are stored.
    both_stored :
        (save g json tables_storage v t).0 ≡ ok tt
        → u.id ≢ v.id
        → (user_at json left u.id ≡ some u) × (user_at json left v.id ≡ some v)
    both_stored saved differ =
        let after =
          user_at-saved json between between-IsConsistent u text
            (json.unmarshal-marshal u text marshalled) in
        let first = stored ((save-Outcomes g json t c v text' marshalled').0) saved v.id in
        (
          after u.id ∙ ground (arith, eq_iff u.id u.id),
          after v.id ∙ differs (u.id == v.id) refl ∙ first ∙ ground (arith, eq_iff v.id v.id),
        )
      where
        differs :
            (b : Bool)
            → (u.id == v.id) ≡ b
            → (if b then some u else user_at json between v.id) ≡ user_at json between v.id
        differs true e = absurd (differ ((eq_iff u.id v.id).0 e))
        differs false e = refl

    -- Where Save(v) runs between the checks and the writes of Save(u), both at consistent tables, for
    -- users with two ids and one email, and the checks of the two calls pass: both calls succeed, both
    -- users are stored, and the tables are no longer consistent.
    pub raced_save_lem :
        (save_checks g json tables_storage u t).0 ≡ ok tt
        → (save g json tables_storage v t).0 ≡ ok tt
        → u.id ≢ v.id
        → u.email ≡ v.email
        → ((raced_save g json tables_storage u v t).0 ≡ ok tt)
          × (user_at json (raced_save g json tables_storage u v t).1 u.id ≡ some u)
          × (user_at json (raced_save g json tables_storage u v t).1 v.id ≡ some v)
          × (¬ IsConsistent json (raced_save g json tables_storage u v t).1)
    raced_save_lem passed saved differ same =
        let both = raced_lem passed saved in
        let (e, l) = checks_filled passed in
        let (at_u, at_v) = both_stored saved differ in
        rw both (
          refl,
          at_u,
          at_v,
          λ consistent.
              differ
                (value_unique json left consistent emails u.id v.id u v at_u at_v same (filled e)),
        )
      where
        filled : (u.email == "") ≡ false → u.email ≢ ""
        filled e z = ground (arith, eq_iff u.email "")
