-- ===== src/Startup/Redis/Laws.antt =====
-- What Dialer of redis.go does to the connections that are open.
use Prim.Native.String.{◌++◌}
use text.Mathlib.Text.{starts_with}
use text.Mathlib.TextPositions.{starts_with-append, len-append, slice-append_right}
use userd.Common.{false, String, ◌≡◌, ◌≢◌, refl, ◌∙◌, ◌==◌, eq_iff, List, ◌∷◌, if◌then◌else◌}
use userd.Errors.{Error}
use userd.Exec.{
  Outcome, ok, err, panic, pure, fail, ignore, attempt, continue, handle, attempt_rule, if_rule,
  ◌>>◌,
}
use userd.Startup.Redis.{Redigo, bare_address, dialer}

-- The address that is dialled for an address of the flags.
pub data IsBare : (address bare : String) → Type 0 where
  with_protocol : (bare : String) → IsBare ("tcp://" ++ bare) bare
  plain : (address : String) → starts_with address "tcp://" ≡ false → IsBare address address

bare_address-IsBare : (address bare : String) → IsBare address bare → bare_address address ≡ bare
unfolding bare_address
bare_address-IsBare _ _ (with_protocol bare) =
    rw (starts_with-append "tcp://" bare, len-append "tcp://" bare)
      (slice-append_right "tcp://" bare)
bare_address-IsBare _ _ (plain address unlike) = rw unlike refl

module _ {N C : Type 0} (redigo : Redigo N C) where
  -- What redigo's documentation says of the connections that are open: a call that dials opens the one
  -- that it returns, Close closes it, and each returns or fails.
  pub record IsConnecting : Type 0 where
    pub opened : N → List C
    pub dial-ok :
        (network address : String) (s : N) (c : C)
        → (redigo.dial network address s).0 ≡ ok c
        → opened (redigo.dial network address s).1 ≡ c ∷ opened s
    pub dial-err :
        (network address : String) (s : N) (e : Error)
        → (redigo.dial network address s).0 ≡ err e
        → opened (redigo.dial network address s).1 ≡ opened s
    pub dial-returns :
        (network address : String) (s : N) → (redigo.dial network address s).0 ≢ panic
    pub do_command-opened :
        (c : C) (command argument : String) (s : N)
        → opened (redigo.do_command c command argument s).1 ≡ opened s
    pub do_command-returns :
        (c : C) (command argument : String) (s : N)
        → (redigo.do_command c command argument s).0 ≢ panic
    pub close-opened :
        (c : C) (others : List C) (s : N)
        → opened s ≡ c ∷ others
        → opened (redigo.close c s).1 ≡ others
    pub close-returns : (c : C) (s : N) → (redigo.close c s).0 ≢ panic

  module _ (net : IsConnecting) where
    pub data Dialed (address password : String) (s : N) : Outcome C × N → Type 0 where
      connected :
          {c : C} {s' : N}
          → (redigo.dial "tcp" address s).0 ≡ ok c
          → (password ≢ ""
              → (redigo.do_command c "AUTH" password (redigo.dial "tcp" address s).1).0 ≡ ok tt)
          → net.opened s' ≡ c ∷ net.opened s
          → Dialed address password s (ok c, s')
      failed :
          {e : Error} {s' : N}
          → net.opened s' ≡ net.opened s
          → Dialed address password s (err e, s')

    -- Closing a connection, whatever the call returns.
    closes : (c : C) (s : N) → ignore (redigo.close c) s ≡ (ok tt, (redigo.close c s).1)
    closes c s = either (redigo.close c s).0 (net.close-returns c s)
      where
        either :
            (r : Outcome (Unit {0}))
            → r ≢ panic
            → handle {S = N} r (λ _. pure tt) (λ _. pure tt) (redigo.close c s).1
              ≡ (ok tt, (redigo.close c s).1)
        either (ok tt) h = refl
        either (err e) h = refl
        either panic h = absurd (h refl)

    module _ (address password : String) (s : N) where
      -- The connection whose AUTH failed.
      closed :
          (c : C) (e : Error) (s' : N)
          → net.opened s' ≡ c ∷ net.opened s
          → Dialed address password s ((ignore (redigo.close c) >> fail e) s')
      closed c e s' is_open =
          rw (closes c s') (failed (net.close-opened c (net.opened s) s' is_open))

      -- A connection at a time when it is open.
      authorised :
          (c : C)
          → (redigo.dial "tcp" address s).0 ≡ ok c
          → Dialed address password s (
              attempt
                (redigo.do_command c "AUTH" password)
                (λ _. pure c)
                (λ e. ignore (redigo.close c) >> fail e)
                (redigo.dial "tcp" address s).1)
      authorised c h =
          let s' = (redigo.dial "tcp" address s).1 in
          let still : net.opened (redigo.do_command c "AUTH" password s').1 ≡ c ∷ net.opened s =
            net.do_command-opened c "AUTH" password s' ∙ net.dial-ok "tcp" address s c h in
          attempt_rule (Dialed address password s) (redigo.do_command c "AUTH" password) s' _ _
            (λ _ accepted. connected h (λ _. accepted) still) (λ e _. closed c e _ still)
            (λ panics. absurd (net.do_command-returns c "AUTH" password s' panics))

    -- Where the address is "tcp://" before a bare address, or the bare address itself and does not
    -- start with "tcp://": the dialer returns the connection that it dialled at the bare address, and,
    -- for a password that is not empty, only after AUTH succeeded on it; that connection alone is
    -- opened. Else it fails, and leaves no further connection open. What redigo documents of dialling,
    -- AUTH and Close is assumed.
    pub dialer-Dialed :
        (address bare password : String) (s : N)
        → IsBare address bare
        → Dialed bare password s (dialer redigo address password s)
    unfolding dialer
    dialer-Dialed address bare password s is_bare =
        rw (bare_address-IsBare address bare is_bare) (dialled (redigo.dial "tcp" bare s).0 refl)
      where
        dialled :
            (r : Outcome C)
            → (redigo.dial "tcp" bare s).0 ≡ r
            → Dialed bare password s (
                continue r
                  (λ c.
                    if password == ""
                    then pure c
                    else attempt
                        (redigo.do_command c "AUTH" password)
                        (λ _. pure c)
                        (λ e. ignore (redigo.close c) >> fail e))
                  (redigo.dial "tcp" bare s).1)
        dialled (ok c) h =
            if_rule (Dialed bare password s) (password == "") _ _ _
              (λ empty.
                connected h (λ filled. absurd (filled ((eq_iff password "").0 empty)))
                  (net.dial-ok "tcp" bare s c h))
              (λ _. authorised bare password s c h)
        dialled (err e) h = failed (net.dial-err "tcp" bare s e h)
        dialled panic h = absurd (net.dial-returns "tcp" bare s h)
