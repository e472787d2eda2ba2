-- ===== src/Errors/Laws.antt =====
-- What the masks of service/errors.go show and hide.
use userd.Common.{◌≡◌, refl, Bool, true, false, ◌&&◌, arith, any_of}
use userd.Errors.{
  Sentinel, Error, known, foreign, err_is, ErrGo, mask_service, mask_tests, invalid_user_object,
}

-- The declared errors that a client of the service can tell apart.
abbrev pub is_public : Sentinel → Bool
is_public invalid_user_object = false
is_public _ = true

module _ (g : ErrGo) where
  mask_tests-known : (s : Sentinel) → any_of (mask_tests g) (known s) ≡ is_public s
  unfolding mask_tests
  mask_tests-known s = ground (arith, g.cause-known s)

  is_public_of_same : (t s : Sentinel) → err_is (known t) s ≡ true → is_public s ≡ is_public t
  is_public_of_same t s h = ground arith

  public_cause :
      (e : Error) (s : Sentinel) (c : Error)
      → g.cause e ≡ c
      → err_is (g.cause (mask_service g e)) s ≡ (is_public s && err_is c s)
  unfolding mask_service
  public_cause e s (foreign n) h =
      ground (arith, g.cause-mask (mask_tests g) e, g.mask-fresh (mask_tests g) e s)
  public_cause e s (known t) h = ground (
    arith,
    g.cause-mask (mask_tests g) e,
    g.mask-fresh (mask_tests g) e s,
    mask_tests-known t,
    is_public_of_same t s,
  )

  -- After `Mask`, the cause of an error is the declared error s exactly when it was before and s is
  -- not storage.InvalidUserObject.
  cause-mask_service :
      (e : Error) (s : Sentinel)
      → err_is (g.cause (mask_service g e)) s ≡ (is_public s && err_is (g.cause e) s)
  cause-mask_service e s = public_cause e s (g.cause e) refl
