-- ===== src/Service/Effects.antt =====
-- What the methods of the service do to the users and to the events, whole or not at all.
use userd.Common.{
  String, ◌≡◌, ◌≢◌, refl, sym, ap, ◌∙◌, ◌++◌, List, [], ◌∷◌, arith, Option, some, ◌==◌,
  if◌then◌else◌,
}
use mathlib.Core.Path.{subst}
use userd.Errors.{ErrGo, mask_service}
use userd.User.{User}
use userd.Exec.{
  Outcome, ok, Exec, map_error, map_outcome, IsFailure, bind_rule, map_outcome-eq-ok, ◌>>=◌,
}
use userd.Storage.Directory.{
  Directory, SameUsers, store, IsFree, IsDirectory, Saving, done, incomplete, taken, found,
}
use userd.Service.Backends.{
  Dependencies, World, Entry, Task, publish_stream, publish_collector, on_store, spawn,
}
use userd.Service.Users.{log_event, read_modify_write}

-- The two goroutines of one event.
abbrev pub event_tasks : (tag bytes : String) → List Task
event_tasks tag bytes = publish_stream tag bytes ∷ publish_collector tag bytes ∷ []

module _ (g : ErrGo) {S F H : Type 0} (deps : Dependencies S F H)
    (dir : IsDirectory g deps.user_storage) where
  abbrev pub users : World S F H → Directory
  users w = dir.users w.store

  -- A method that writes one user and logs one event, or fails and does neither.
  pub data Effect {A : Type 0} (Done : A → User → Type 0) (tag : String) (entry : User → Entry)
      (w : World S F H) (r : Outcome A × World S F H) : Type 0 where
    written :
        (a : A) (u : User) (bytes : String)
        → r.0 ≡ ok a
        → Done a u
        → IsFree (users w) u
        → SameUsers (users r.1) (store u (users w))
        → deps.marshal_entry (entry u) ≡ ok bytes
        → r.1.tasks ≡ w.tasks ++ event_tasks tag bytes
        → Effect Done tag entry w r
    failed :
        IsFailure r.0
        → SameUsers (users r.1) (users w)
        → r.1.tasks ≡ w.tasks
        → Effect Done tag entry w r

  -- What a success says.
  pub effect_of_ok :
      {A : Type 0} {Done : A → User → Type 0} {tag : String} {entry : User → Entry}
      {w : World S F H} {r : Outcome A × World S F H} (a : A)
      → Effect Done tag entry w r
      → r.0 ≡ ok a
      → (u : User) × Done a u × SameUsers (users r.1) (store u (users w))
  effect_of_ok {Done} a (written b u bytes e d _ now _ _) h =
      let same : b ≡ a = cc in (u, subst (λ x. Done x u) same d, now)
  effect_of_ok {r} a (failed f _ _) h = absurd (rw h at f)

  abbrev pub logged : (tag bytes : String) → World S F H → World S F H
  logged tag bytes w = record w { tasks = w.tasks ++ event_tasks tag bytes }

  pub log_event_lem :
      (tag : String) (entry : Entry) (bytes : String) (w : World S F H)
      → deps.marshal_entry entry ≡ ok bytes
      → log_event g deps tag entry w ≡ (ok tt, logged tag bytes w)
  unfolding log_event spawn
  log_event_lem tag entry bytes w h = rw h

  -- An action that leaves the users and the tasks alone.
  pub record Leaves {A : Type 0} (m : Exec (World S F H) A) : Type 0 where
    pub keeps_store : (w : World S F H) → (m w).1.store ≡ w.store
    pub keeps_tasks : (w : World S F H) → (m w).1.tasks ≡ w.tasks

  module _ (storable : (u : User) → dir.IsStorable u)
      (marshals : (e : Entry) → (bytes : String) × (deps.marshal_entry e ≡ ok bytes)) where
    -- Save, and then the event, before what returns a.
    module _ {A : Type 0} (Done : A → User → Type 0) (tag : String) (entry : User → Entry) (a : A)
        (k : Unit {0} → Exec (World S F H) A) (u : User)
        (logs : (bytes : String) (w : World S F H)
          → deps.marshal_entry (entry u) ≡ ok bytes
          → k tt w ≡ (ok a, logged tag bytes w)) where
      pub save_then_log :
          (w w₀ : World S F H)
          → dir.IsValid w.store
          → SameUsers (users w) (users w₀)
          → w.tasks ≡ w₀.tasks
          → Done a u
          → Effect Done tag entry w₀
              ((map_error (mask_service g) (on_store (deps.user_storage.save u)) >>= k) w)
            × dir.IsValid
                ((map_error (mask_service g) (on_store (deps.user_storage.save u)) >>= k) w).1.store
      unfolding on_store
      save_then_log w w₀ v same_users same_tasks d =
          bind_rule Q (map_error (mask_service g) (on_store (deps.user_storage.save u))) w k
            (λ _ e.
              rw (logs bytes after h)
                (after_save (map_outcome-eq-ok _ _ e) (dir.saving w.store v u (storable u)), valid))
            (λ r f ne. (
              stopped r f (λ e. ne tt (ap (map_outcome (mask_service g)) e))
                  (dir.saving w.store v u (storable u)),
              valid,
            ))
        where
          Q : Outcome A × World S F H → Type 0
          Q r = Effect Done tag entry w₀ r × dir.IsValid r.1.store

          bytes : String
          bytes = (marshals (entry u)).0

          h : deps.marshal_entry (entry u) ≡ ok bytes
          h = (marshals (entry u)).1

          after : World S F H
          after = record w { store = (deps.user_storage.save u w.store).1 }

          valid : dir.IsValid after.store
          valid = dir.save-IsValid w.store v u (storable u)

          after_save :
              (deps.user_storage.save u w.store).0 ≡ ok tt
              → Saving g (users w) u (deps.user_storage.save u w.store).0 (users after)
              → Effect Done tag entry w₀ (ok a, logged tag bytes after)
          after_save e (done _ _ free now) =
              written a u bytes refl d (λ f id v' at. free f id v' (same_users id ∙ at))
                (λ i. now i ∙ ap (λ o. if u.id == i then some u else o) (same_users i)) h
                (ap (λ ts. ts ++ event_tasks tag bytes) same_tasks)
          after_save e (incomplete refused _ _) = cc
          after_save e (taken f refused _ _) = cc

          stopped :
              (r : Outcome A)
              → IsFailure r
              → (deps.user_storage.save u w.store).0 ≢ ok tt
              → Saving g (users w) u (deps.user_storage.save u w.store).0 (users after)
              → Effect Done tag entry w₀ (r, after)
          stopped r f ne (done e _ _ _) = absurd (ne e)
          stopped r f ne (incomplete _ _ same) = failed f (λ i. same i ∙ same_users i) same_tasks
          stopped r f ne (taken _ _ _ same) = failed f (λ i. same i ∙ same_users i) same_tasks

    -- `readModifyWrite` at a filled id, with a modifier that changes neither storage nor tasks.
    module _ (user_id tag : String) (entry : User → Entry)
        (modifier : User → Exec (World S F H) User) (Modified : User → User → Type 0)
        (leaves : (u : User) → Leaves (modifier u))
        (modifies : (u u' : User) (w : World S F H)
          → (modifier u w).0 ≡ ok u'
          → Modified u u') where
      abbrev pub Changed : World S F H → Unit {0} → User → Type 0
      Changed w _ u' = (u : User) × (users w user_id ≡ some u) × Modified u u'

      pub read_modify_write-Effect :
          (w : World S F H)
          → dir.IsValid w.store
          → user_id ≢ ""
          → Effect
              (Changed w)
              tag
              entry
              w
              (read_modify_write g deps user_id modifier (λ u. log_event g deps tag (entry u)) w)
            × dir.IsValid
                (read_modify_write g deps user_id modifier
                  (λ u. log_event g deps tag (entry u))
                  w).1.store
      unfolding read_modify_write on_store
      read_modify_write-Effect w v filled =
          bind_rule Q (map_error (mask_service g) (on_store (deps.user_storage.get user_id))) w _
            (λ u got.
              bind_rule Q (map_error (mask_service g) (modifier u)) read _
                (λ u' changed.
                  save_then_log (Changed w) tag entry tt (λ _. log_event g deps tag (entry u')) u'
                    (λ bytes w'. log_event_lem tag (entry u') bytes w') (modifier u read).1 w
                    (rw ((leaves u).keeps_store read) valid) (rw ((leaves u).keeps_store read) same)
                    ((leaves u).keeps_tasks read)
                    (
                      u,
                      stored u (map_outcome-eq-ok _ _ got),
                      modifies u u' read (map_outcome-eq-ok _ _ changed),
                    ))
                (λ r f ne. (
                  failed f (rw ((leaves u).keeps_store read) same) ((leaves u).keeps_tasks read),
                  rw ((leaves u).keeps_store read) valid,
                )))
            (λ r f ne. (failed f same refl, valid))
        where
          Q : Outcome (Unit {0}) × World S F H → Type 0
          Q r = Effect (Changed w) tag entry w r × dir.IsValid r.1.store

          read : World S F H
          read = record w { store = (deps.user_storage.get user_id w.store).1 }

          same : SameUsers (users read) (users w)
          same = dir.get-users w.store v user_id

          valid : dir.IsValid read.store
          valid = dir.get-IsValid w.store v user_id

          stored :
              (u : User)
              → (deps.user_storage.get user_id w.store).0 ≡ ok u
              → users w user_id ≡ some u
          stored u e =
              found_user (users w user_id) (sym (dir.get-outcome w.store v user_id filled) ∙ e)
            where
              found_user : (o : Option User) → found o ≡ ok u → o ≡ some u
              found_user o h = ground arith
