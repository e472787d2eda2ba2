-- ===== src/Api/Atomic.antt =====
-- What it is for a request to be answered whole or not at all, and the rules for the parts that the
-- handlers of middlewares/v1/web.go share.
use userd.Common.{ℕ, String, ◌≡◌, ◌≢◌, ◌⊎◌, inl, inr, refl, ap, ◌∙◌, List, [], ◌∷◌}
use userd.Errors.{ErrGo, Error}
use userd.Exec.{Outcome, ok, panic, Exec, attempt, IsFailure, attempt_rule}
use userd.Storage.Directory.{IsDirectory, SameUsers}
use userd.Service.Backends.{Dependencies, World}
use userd.Api.Writer.{write_bad_request, Call, Object}
use userd.Api.Errors.{handle_processing_error, mask_error}
use userd.Api.Answers.{statuses, IsErrorStatus}
use userd.Api.Pages.{
  IsPage, whole, cut, IsErrorAnswer, plain_bad_request_page, bad_request_page,
  handle_processing_error-IsErrorAnswer,
}
use userd.Api.Handlers.{Serving, answer, answer_unmasked, refuse, on_service, on_writer}

module _ (g : ErrGo) {S F H : Type 0} (deps : Dependencies S F H)
    (dir : IsDirectory g deps.user_storage) where
  -- No user has changed, and no event was logged.
  abbrev pub Untouched : World S F H → World S F H → Type 0
  Untouched w w' = SameUsers (dir.users w'.store) (dir.users w.store) × (w'.tasks ≡ w.tasks)

  -- A method that changes nothing where it fails, and leaves the storage valid.
  pub record IsAtomic {A : Type 0} (w : World S F H) (r : Outcome A × World S F H) : Type 0 where
    pub untouched : IsFailure r.0 → Untouched w r.1
    pub valid : dir.IsValid r.1.store

  abbrev pub arriving : World S F H → Serving S F H
  arriving w = record { world = w; calls = [] }

  module _ (encode : Object → Outcome String) where
    -- Whole, with the status of a success or of an error; cut off by a panic behind such a status, where
    -- the encoder fails; or nothing at all, where the service panics.
    pub data Answer (success : ℕ) (w : World S F H) (r : Outcome (Unit {0}) × Serving S F H)
        : Type 0 where
      succeeded : r.0 ≡ ok tt → statuses r.1.calls ≡ success ∷ [] → Answer success w r
      refused :
          (code : ℕ)
          → IsErrorStatus code
          → r.0 ≡ ok tt
          → statuses r.1.calls ≡ code ∷ []
          → Untouched w r.1.world
          → Answer success w r
      cut_off :
          (code : ℕ) (o : Object)
          → ((line : String) → encode o ≢ ok line)
          → r.0 ≡ panic
          → statuses r.1.calls ≡ code ∷ []
          → (code ≡ success) ⊎ (IsErrorStatus code × Untouched w r.1.world)
          → Answer success w r
      panicked : r.0 ≡ panic → r.1.calls ≡ [] → Untouched w r.1.world → Answer success w r

    -- An answer that leaves the storage valid.
    abbrev pub Answered : ℕ → World S F H → Outcome (Unit {0}) × Serving S F H → Type 0
    Answered success w r = Answer success w r × dir.IsValid r.1.world.store

    page-Answer :
        (code success : ℕ) (w w' : World S F H) {r : Outcome (Unit {0}) × List Call}
        → IsPage encode code r
        → (code ≡ success) ⊎ (IsErrorStatus code × Untouched w w')
        → Answer success w (r.0, record { world = w'; calls = r.1 })
    page-Answer code success w w' (whole e status) (inl same) =
        succeeded e (status ∙ ap (λ c. c ∷ []) same)
    page-Answer code success w w' (whole e status) (inr (is_error, kept)) =
        refused code is_error e status kept
    page-Answer code success w w' (cut o fails e status) left = cut_off code o fails e status left

    -- What runs a method of the service and then writes an answer, or an error's page.
    module _ {A : Type 0} (m : Exec (World S F H) A) (success : A → Exec (List Call) (Unit {0}))
        (code : ℕ) (w : World S F H) where
      answering :
          (report : Error → Exec (List Call) (Unit {0}))
          → ((e : Error) → IsErrorAnswer encode (report e []))
          → ((a : A) → IsPage encode code (success a []))
          → IsAtomic w (m w)
          → Answered code w (
              attempt
                (on_service m)
                (λ a. on_writer (success a))
                (λ e. on_writer (report e))
                (arriving w))
      unfolding on_service on_writer
      answering report pages one_status atomic =
          attempt_rule (Answered code w) (on_service m) (arriving w) _ _
            (λ a e. (page-Answer code code w (m w).1 (one_status a) (inl refl), atomic.valid))
            (λ e at. (page e (atomic.untouched (rw at tt)), atomic.valid))
            (λ at. (panicked refl refl (atomic.untouched (rw at tt)), atomic.valid))
        where
          page :
              (e : Error)
              → Untouched w (m w).1
              → Answer code w ((report e []).0, record { world = (m w).1; calls = (report e []).1 })
          page e kept =
              let (status, is_error, written) = pages e in
              page-Answer status code w (m w).1 written (inr (is_error, kept))

      pub answer-Answered :
          ((a : A) → IsPage encode code (success a []))
          → IsAtomic w (m w)
          → Answered code w (answer g deps encode m success (arriving w))
      unfolding answer
      answer-Answered =
          answering (λ e. handle_processing_error g encode (mask_error g e))
            (λ e. handle_processing_error-IsErrorAnswer encode g (mask_error g e))

      pub answer_unmasked-Answered :
          ((a : A) → IsPage encode code (success a []))
          → IsAtomic w (m w)
          → Answered code w (answer_unmasked g deps encode m success (arriving w))
      unfolding answer_unmasked
      answer_unmasked-Answered =
          answering (handle_processing_error g encode)
            (handle_processing_error-IsErrorAnswer encode g)

    -- What is refused before the service is asked.
    module _ (code : ℕ) (w : World S F H) (valid : dir.IsValid w.store) where
      refusing :
          (messages : List String)
          → IsErrorAnswer encode (write_bad_request encode messages [])
          → Answered code w (refuse g deps encode messages (arriving w))
      unfolding refuse on_writer
      refusing messages (status, is_error, page) =
          (page-Answer status code w w page (inr (is_error, (λ i. refl, refl))), valid)

      pub refuse-Answered : Answered code w (refuse g deps encode [] (arriving w))
      refuse-Answered = refusing [] (plain_bad_request_page encode)

      pub refuse_with-Answered :
          (message : String) → Answered code w (refuse g deps encode (message ∷ []) (arriving w))
      refuse_with-Answered message = refusing (message ∷ []) (bad_request_page encode message)
