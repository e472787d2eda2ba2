-- ===== src/Startup/Accepted.antt =====
-- Which flags main.go starts with.
use userd.Common.{
  ℕ, zero, suc, ltb, String, ◌≡◌, ◌↔◌, ◌⊎◌, refl, sym, ◌∙◌, Bool, true, false, List, arith,
  if◌then◌else◌,
}
use userd.Common.Int.{ℤ, ltb_ℤ, pos, negsuc, is_not_positive}
use userd.Exec.{ok, panic}
use userd.Part.{or_panic, ready}
use userd.Part.Ready.{IsReady, and_then-IsReady, and_then_always}
use userd.Hasher.{Bcrypt, BcryptHasher, new_bcrypt_hasher}
use userd.Service.Backends.{validate, validate_values}
use userd.Service.Collector.{EventCollector, new_event_collector}
use userd.Service.Create.{new_collector}
use userd.EventStream.{event_streams}
use userd.Startup.{
  Flags, Environment, password_hasher, Assembly, duration_of_minutes, switches, configuration,
  event_collector, assemble,
}
use userd.Startup.Choices.{
  IsStorage, AreStreams, id_factory-IsReady, user_storage-IsReady, add_streams-IsReady,
}

-- No cost below the least one is above the greatest.
below : (a low high : ℤ) → ltb_ℤ a low ≡ true → ltb_ℤ high low ≡ false → ltb_ℤ high a ≡ false
below (pos a) (pos low) (pos high) h k = ground arith
below (pos a) (pos low) (negsuc high) h k = ground arith
below (pos a) (negsuc low) high h k = ground arith
below (negsuc a) (pos low) (pos high) h k = refl
below (negsuc a) (pos low) (negsuc high) h k = ground arith
below (negsuc a) (negsuc low) (pos high) h k = refl
below (negsuc a) (negsuc low) (negsuc high) h k = ground arith

module _ {R : Type 0} (bcrypt : Bcrypt R) (flags : Flags)
    (least : ltb_ℤ bcrypt.max_cost bcrypt.min_cost ≡ false)
    (default : ltb_ℤ bcrypt.max_cost bcrypt.default_cost ≡ false) where
  -- The default, which stands in for a cost that is too low, is not too high.
  cost-fits :
      (given : ℤ)
      → ltb_ℤ bcrypt.max_cost (if ltb_ℤ given bcrypt.min_cost then bcrypt.default_cost else given)
        ≡ ltb_ℤ bcrypt.max_cost given
  cost-fits given = either (ltb_ℤ given bcrypt.min_cost) refl
    where
      either :
          (low : Bool)
          → ltb_ℤ given bcrypt.min_cost ≡ low
          → ltb_ℤ bcrypt.max_cost (if low then bcrypt.default_cost else given)
            ≡ ltb_ℤ bcrypt.max_cost given
      either true h = default ∙ sym (below given bcrypt.min_cost bcrypt.max_cost h least)
      either false h = refl

  password_hasher-IsReady :
      IsReady (password_hasher bcrypt flags)
      ↔ (ltb_ℤ bcrypt.max_cost flags.of_hasher.hasher_bcrypt_cost ≡ false)
  unfolding password_hasher new_bcrypt_hasher
  password_hasher-IsReady = rw (cost-fits flags.of_hasher.hasher_bcrypt_cost) (guarded _ _)
    where
      guarded :
          (high : Bool) (made : BcryptHasher)
          → IsReady (or_panic (if high then panic else ok made)) ↔ (high ≡ false)
      guarded true made = ((λ (a, e). cc), (λ e. cc))
      guarded false made = ((λ _. refl), (λ _. (made, refl)))

module _ (most : ℕ) (verified : Bool) where
  granted :
      (high : Bool) (made : EventCollector)
      → IsReady (or_panic (if high then panic else ok made))
        ↔ ((false ≡ false) × ((high ≡ false) × (false ≡ false)))
  granted true made = ((λ (a, e). cc), (λ (_, (e, _)). cc))
  granted false made = ((λ _. (refl, (refl, refl))), (λ _. (made, refl)))

  collector-IsReady :
      (items expire : ℤ)
      → IsReady (
          event_collector most (record {
            auth_email_must_be_verified = verified;
            max_items = items;
            reset_password_expire_time = expire;
          }))
        ↔ ((is_not_positive items ≡ false)
            × ((ltb_ℤ (pos most) items ≡ false) × (is_not_positive expire ≡ false)))
  unfolding event_collector new_collector validate validate_values new_event_collector
  collector-IsReady (pos zero) expire = ((λ (a, e). cc), (λ (p, (q, r)). cc))
  collector-IsReady (negsuc n) expire = ((λ (a, e). cc), (λ (p, (q, r)). cc))
  collector-IsReady (pos (suc n)) (pos zero) = ((λ (a, e). cc), (λ (p, (q, r)). cc))
  collector-IsReady (pos (suc n)) (negsuc k) = ((λ (a, e). cc), (λ (p, (q, r)). cc))
  collector-IsReady (pos (suc n)) (pos (suc k)) = granted (ltb most (suc n)) _

module _ {R : Type 0} (bcrypt : Bcrypt R) (split : String → List String) (flags : Flags)
    (env : Environment) where
  -- Where the costs of bcrypt are in order, main starts to listen exactly if the id factory, the storage
  -- and each event stream is one of those that it names, what they write to can be opened, the cost is
  -- not above the greatest, the feed's length is positive and not above the greatest capacity that make
  -- grants, and the life time of a reset token is positive.
  pub assemble-IsReady :
      ltb_ℤ bcrypt.max_cost bcrypt.min_cost ≡ false
      → ltb_ℤ bcrypt.max_cost bcrypt.default_cost ≡ false
      → ((assembly : Assembly) × (assemble bcrypt split flags env ≡ ready assembly)) ↔ (
          ((flags.of_ids.idfactory ≡ "uuid") ⊎ (flags.of_ids.idfactory ≡ "seq"))
          × ((ltb_ℤ bcrypt.max_cost flags.of_hasher.hasher_bcrypt_cost ≡ false)
              × (IsStorage flags env
                  × (AreStreams (switches flags env) (split flags.of_streams.eventstreams)
                      × ((is_not_positive flags.of_service.feed_max_items ≡ false)
                          × ((ltb_ℤ (pos env.most_items) flags.of_service.feed_max_items ≡ false)
                              × (is_not_positive (
                                    duration_of_minutes
                                      flags.of_service.expire_reset_password_token)
                                  ≡ false)))))))
  unfolding assemble configuration event_streams
  assemble-IsReady least default = and_then-IsReady _ _ (id_factory-IsReady flags) λ factory.
      and_then-IsReady _ _ (password_hasher-IsReady bcrypt flags least default) λ hasher.
        and_then-IsReady _ _ (user_storage-IsReady split flags env) λ storage.
          and_then-IsReady _ _
            (add_streams-IsReady (switches flags env) (split flags.of_streams.eventstreams) _)
            λ streams.
              and_then_always _ _
                (collector-IsReady env.most_items flags.of_service.auth_email
                  flags.of_service.feed_max_items
                  (duration_of_minutes flags.of_service.expire_reset_password_token))
                (λ collector. (_, refl))
