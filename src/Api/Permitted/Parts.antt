-- ===== src/Api/Permitted/Parts.antt =====
-- The handlers of middlewares/v1/web.go, part by part, against the table of Permissions.
use userd.Common.{String, ◌≡◌, refl, Bool, some, List, [], if◌then◌else◌}
use userd.Errors.{Error, ErrGo}
use userd.User.{User}
use userd.Exec.{Outcome, ok, err, panic, Exec, if_rule, handle}
use userd.Storage.Directory.{IsDirectory}
use userd.Service.Backends.{Dependencies, World, Entry}
use userd.Service.Effects.{Effect, written, failed}
use userd.Api.Writer.{Call, Object}
use userd.Api.Errors.{handle_processing_error, mask_error}
use userd.Api.Handlers.{Serving, Handler, answer, answer_unmasked, refuse, on_service, on_writer}
use userd.Api.Routes.{Route}
use userd.Api.Atomic.{arriving}
use userd.Api.Permissions.{Permitted, unchanged, changed, Agrees}

module _ (g : ErrGo) {S F H : Type 0} (deps : Dependencies S F H)
    (dir : IsDirectory g deps.user_storage) (encode : Object → Outcome String) where
  -- The world that a handler leaves is that which the service leaves.
  left_by :
      {A : Type 0} (r : Outcome A) (w : World S F H) (calls : List Call)
      (success : A → Exec (List Call) (Unit {0})) (report : Error → Exec (List Call) (Unit {0}))
      → (handle {S = Serving S F H} r
          (λ a. on_writer (success a))
          (λ e. on_writer (report e))
          (record { world = w; calls = calls })).1.world
        ≡ w
  unfolding on_writer
  left_by (ok a) w calls success report = refl
  left_by (err e) w calls success report = refl
  left_by panic w calls success report = refl

  module _ (route : Route) (w : World S F H) where
    abbrev pub Keeps : Outcome (Unit {0}) × Serving S F H → Type 0
    Keeps r = Permitted route (dir.users w.store) (dir.users r.1.world.store)

    pub answer-Keeps :
        {A : Type 0} (m : Exec (World S F H) A) (success : A → Exec (List Call) (Unit {0}))
        → Permitted route (dir.users w.store) (dir.users (m w).1.store)
        → Keeps (answer g deps encode m success (arriving g deps dir w))
    unfolding answer on_service
    answer-Keeps m success p =
        rw
          (left_by (m w).0 (m w).1 [] success
            (λ e. handle_processing_error g encode (mask_error g e)))
          p

    pub answer_unmasked-Keeps :
        {A : Type 0} (m : Exec (World S F H) A) (success : A → Exec (List Call) (Unit {0}))
        → Permitted route (dir.users w.store) (dir.users (m w).1.store)
        → Keeps (answer_unmasked g deps encode m success (arriving g deps dir w))
    unfolding answer_unmasked on_service
    answer_unmasked-Keeps m success p =
        rw (left_by (m w).0 (m w).1 [] success (λ e. handle_processing_error g encode e)) p

    pub refuse-Keeps :
        (messages : List String) → Keeps (refuse g deps encode messages (arriving g deps dir w))
    unfolding refuse on_writer
    refuse-Keeps messages = unchanged (λ i. refl)

    pub guarded-Keeps :
        (b : Bool) (m n : Handler g deps encode)
        → Keeps (m (arriving g deps dir w))
        → Keeps (n (arriving g deps dir w))
        → Keeps ((if b then m else n) (arriving g deps dir w))
    guarded-Keeps b m n p q = if_rule Keeps b m n (arriving g deps dir w) (λ _. p) (λ _. q)

    -- What writes one user as the route may, or nothing.
    pub effect-Permitted :
        {A : Type 0} {Done : A → User → Type 0} {tag : String} {entry : User → Entry}
        {r : Outcome A × World S F H}
        → ((a : A) (u' : User)
            → Done a u'
            → (u : User) × (dir.users w.store u'.id ≡ some u) × Agrees route u u')
        → Effect g deps dir Done tag entry w r
        → Permitted route (dir.users w.store) (dir.users r.1.store)
    effect-Permitted agrees (written a u' bytes _ done _ now _ _) =
        let (u, at, same) = agrees a u' done in changed u u' at same now
    effect-Permitted agrees (failed _ same _) = unchanged same
