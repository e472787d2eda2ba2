-- ===== src/Service/Create.antt =====
-- service/service.go: NewUserService.
use userd.Common.{ℕ}
use userd.Exec.{Outcome, ok, err, panic}
use userd.Service.Backends.{Config, Dependencies, validate, user_storage_wrapper}
use userd.Service.Collector.{EventCollector, new_event_collector}

pub record UserService (S F H : Type 0) : Type 0 where
  pub dependencies : Dependencies S F H
  pub config : Config
  pub event_collector : EventCollector

-- Its collector, behind Validate; `most` is the greatest capacity that `make` grants.
unfoldable pub new_collector : (most : ℕ) → Config → Outcome EventCollector
new_collector most config = elim (validate config) [
  | ok _ ↦ new_event_collector most config.max_items
  | err e ↦ err e
  | panic ↦ panic
]

unfoldable pub new_user_service :
    {S F H : Type 0} → (most : ℕ) → Config → Dependencies S F H → Outcome (UserService S F H)
unfolding new_collector
new_user_service most config deps = elim (new_collector most config) [
  | ok collector ↦ ok (record {
    dependencies = record deps { user_storage = user_storage_wrapper deps.user_storage };
    config = config;
    event_collector = collector;
  })
  | err e ↦ err e
  | panic ↦ panic
]
