-- ===== src/Service/Collector.antt =====
-- service/collector.go: the collector of the last events, and the goroutines that `logEvent` in
-- service/service.go starts. A goroutine is a `Task`; those that wait may run in any order. Each
-- method of the collector holds its lock throughout, so a method is one step.
use userd.Common.{
  ℕ, ◌+◌, ◌-◌, String, ◌≡◌, Bool, ◌&&◌, ◌==◌, List, [], ◌∷◌, ◌++◌, Option, none, some, length, drop,
  ltb, if◌then◌else◌,
}
use userd.Common.Int.{ℤ, pos, negsuc, ltb_ℤ}
use userd.User.{Time}
use userd.Exec.{Outcome, ok, err, panic, Exec, attempt, fail, pure}
use userd.Service.Backends.{Task, publish_stream, publish_collector}
pub mod Window
pub mod Finish

pub record Item : Type 0 where
  pub tag : String
  pub json : String
  pub timestamp : Time
  pub marshal_cache : Option String

pub record EventCollector : Type 0 where
  pub max_items : ℤ
  pub items : List Item

-- `make` panics at a capacity below 0, and above the greatest that it grants for items.
unfoldable pub new_event_collector : (most : ℕ) → ℤ → Outcome EventCollector
new_event_collector most (pos n) =
    if ltb most n then panic else ok (record { max_items = pos n; items = [] })
new_event_collector most (negsuc n) = panic

unfoldable pub publish : (tag json : String) → Time → EventCollector → EventCollector
publish tag json now esc =
    let item : Item = record { tag = tag; json = json; timestamp = now; marshal_cache = none } in
    let items = esc.items ++ (item ∷ []) in
    if ltb_ℤ esc.max_items (pos (length items))
    then record esc { items = drop 1 items }
    else record esc { items = items }

abbrev pub get : EventCollector → List Item
get esc = esc.items

-- json.Marshal of an item's map is a parameter; the cache is filled where it succeeds.
unfoldable pub marshal_json :
    ((tag : String) → Time → (message : String) → Outcome String) → Exec Item String
marshal_json marshal item = elim item.marshal_cache [
  | some bytes ↦ (ok bytes, item)
  | none ↦ elim (marshal item.tag item.timestamp item.json) [
    | ok bytes ↦ (ok bytes, record item { marshal_cache = some bytes })
    | err e ↦ (err e, item)
    | panic ↦ (panic, item)
  ]
]

-- The encoder of encoding/json over a writer: it asks the item for its JSON, and writes a line or
-- returns an error. The loop's `item` is a copy, so that the cache is dropped with it.
unfoldable pub write_items :
    {W : Type 0}
    → ((tag : String) → Time → (message : String) → Outcome String)
    → (Outcome String → Exec W (Unit {0}))
    → List Item
    → Exec W (Unit {0})
write_items marshal encode [] = pure tt
write_items marshal encode (item ∷ items) =
    attempt (encode (marshal_json marshal item).0) (λ _. write_items marshal encode items)
      (λ e. fail e)

unfoldable pub write_json_stream_once :
    {W : Type 0}
    → ((tag : String) → Time → (message : String) → Outcome String)
    → (Outcome String → Exec W (Unit {0}))
    → EventCollector
    → Exec W (Unit {0})
write_json_stream_once marshal encode esc = write_items marshal encode (get esc)

-- The process while goroutines wait: the stream's own state is of type E.
pub record Running (E : Type 0) : Type 0 where
  pub tasks : List Task
  pub collector : EventCollector
  pub stream : E

unfoldable pub run_task :
    {E : Type 0} → ((tag bytes : String) → E → E) → Task → Time → Running E → Running E
run_task stream (publish_stream tag bytes) now r = record r { stream = stream tag bytes r.stream }
run_task stream (publish_collector tag bytes) now r = record r {
  collector = publish tag bytes now r.collector;
}

-- What a task adds to the history of the collector.
abbrev pub collected : Task → Time → List Item
collected (publish_stream tag bytes) now = []
collected (publish_collector tag bytes) now =
    record { tag = tag; json = bytes; timestamp = now; marshal_cache = none } ∷ []

-- Some of the waiting tasks run, each at a time of its own, in any order.
pub data Runs {E : Type 0} (stream : (tag bytes : String) → E → E)
    : Running E → List Item → Running E → Type 0 where
  stop : {r : Running E} → Runs stream r [] r
  step :
      {r r' : Running E} {published : List Item} (before after : List Task) (task : Task)
      (now : Time)
      → r.tasks ≡ before ++ (task ∷ after)
      → Runs stream (run_task stream task now (record r { tasks = before ++ after })) published r'
      → Runs stream r (collected task now ++ published) r'
