-- ===== src/Client/Replies.antt =====
-- What a handler of middlewares/v1/web.go replies that runs a method of the service and then writes an
-- answer, or the page of an error.
use userd.Common.{ℕ, String, ◌≡◌, refl, ap, List, [], ◌∷◌}
use userd.Errors.{Error}
use userd.Exec.{Outcome, ok, err, panic, Exec, attempt}
use userd.Service.Backends.{World}
use userd.Api.Writer.{Call, Object}
use userd.Api.Answers.{statuses, IsErrorStatus, IsErrorPage}
use userd.Api.Handlers.{Serving, on_service, on_writer}

module _ {S F H : Type 0} (encode : Object → Outcome String)
    (encodes : (o : Object) → (line : String) × (encode o ≡ ok line)) {A : Type 0}
    (m : Exec (World S F H) A) (success : A → Exec (List Call) (Unit {0}))
    (report : Error → Exec (List Call) (Unit {0})) (w : World S F H) where
  -- The reply, from the method's outcome and the world that it leaves.
  abbrev pub reply : Outcome (Unit {0}) × Serving S F H
  reply =
      attempt (on_service m) (λ a. on_writer (success a)) (λ e. on_writer (report e))
        (record { world = w; calls = [] })

  pub data Replied (r : Outcome (Unit {0}) × Serving S F H) : Type 0 where
    answered :
        (a : A)
        → (m w).0 ≡ ok a
        → r ≡ ((success a []).0, record { world = (m w).1; calls = (success a []).1 })
        → Replied r
    refused :
        (e : Error) (code : ℕ)
        → (m w).0 ≡ err e
        → IsErrorStatus code
        → r.0 ≡ ok tt
        → statuses r.1.calls ≡ code ∷ []
        → r.1.world ≡ (m w).1
        → Replied r
    panicked : (m w).0 ≡ panic → r.0 ≡ panic → r.1.world ≡ (m w).1 → Replied r

  pub reply-Replied : ((e : Error) → IsErrorPage encode encodes (report e [])) → Replied reply
  unfolding on_service on_writer
  reply-Replied page = go (m w).0 refl
    where
      go : (r : Outcome A) → (m w).0 ≡ r → Replied reply
      go (ok a) e = answered a e (rw e refl)
      go (err x) e =
          let (code, _, is_error, written) = page x in
          refused x code e is_error (rw e (ap (λ r. r.0) written))
            (rw e (ap (λ r. statuses r.1) written)) (rw e refl)
      go panic e = panicked e (rw e refl) (rw e refl)
