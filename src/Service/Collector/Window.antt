-- ===== src/Service/Collector/Window.antt =====
-- The collector holds the last events that were published, each once, in whatever order the
-- goroutines ran.
use userd.Common.{
  ℕ, zero, suc, ◌+◌, ◌-◌, String, ◌≡◌, refl, sym, ap, ◌∙◌, arith, true, false, ◌&&◌, ◌==◌, List, [],
  ◌∷◌, ◌++◌, none, length, drop, length-append, length-drop, drop-append, drop-suc, ltb,
  if◌then◌else◌, if_branches,
}
use mathlib.Core.List.{append-nil, append_assoc}
use userd.Common.Int.{pos, ltb_ℤ}
use userd.Exec.{ok}
use userd.User.{Time}
use userd.Service.Backends.{Task, publish_stream, publish_collector}
use userd.Service.Collector.{
  Item, EventCollector, new_event_collector, publish, Running, run_task, collected, Runs, stop,
  step,
}

-- The last n of the items.
abbrev pub last : ℕ → List Item → List Item
last n xs = drop (length xs - n) xs

-- The collector has room for n items, and holds the last n of the history.
pub record Holds (n : ℕ) (history : List Item) (esc : EventCollector) : Type 0 where
  pub room : esc.max_items ≡ pos n
  pub window : esc.items ≡ last n history

drop_nil : (k : ℕ) → drop {A = Item} k [] ≡ []
drop_nil zero = refl
drop_nil (suc k) = refl

new-Holds :
    (most n : ℕ) (esc : EventCollector) → new_event_collector most (pos n) ≡ ok esc → Holds n [] esc
unfolding new_event_collector
new-Holds most n esc e =
    let eq : record { max_items = pos n; items = [] } ≡ esc = ground arith in
    record {
      room = ap (λ (c : EventCollector). c.max_items) (sym eq);
      window = ap (λ (c : EventCollector). c.items) (sym eq) ∙ sym (drop_nil (0 - n));
    }

module _ (n : ℕ) (xs : List Item) (x : Item) where
  sizes : length (last n xs ++ (x ∷ [])) ≡ (length xs - (length xs - n)) + 1
  sizes = length-append (last n xs) (x ∷ []) ∙ ap (λ k. k + 1) (length-drop (length xs - n) xs)

  more : length (xs ++ (x ∷ [])) ≡ length xs + 1
  more = length-append xs (x ∷ [])

  moved : last n xs ++ (x ∷ []) ≡ drop (length xs - n) (xs ++ (x ∷ []))
  moved = sym (drop-append (length xs - n) xs (x ∷ []) (omega arith))

  -- One more item where there is no room, so that the first is dropped, and where there is.
  slide_full :
      ltb n (length (last n xs ++ (x ∷ []))) ≡ true
      → drop 1 (last n xs ++ (x ∷ [])) ≡ last n (xs ++ (x ∷ []))
  slide_full full =
      let k : suc (length xs - n) ≡ length (xs ++ (x ∷ [])) - n = grind (arith, sizes, more) in
      ap (drop 1) moved
      ∙ drop-suc (length xs - n) (xs ++ (x ∷ []))
      ∙ ap (λ k. drop k (xs ++ (x ∷ []))) k

  slide_free :
      ltb n (length (last n xs ++ (x ∷ []))) ≡ false
      → last n xs ++ (x ∷ []) ≡ last n (xs ++ (x ∷ []))
  slide_free free =
      let k : length xs - n ≡ length (xs ++ (x ∷ [])) - n = grind (arith, sizes, more) in
      moved ∙ ap (λ k. drop k (xs ++ (x ∷ []))) k

-- A collector that holds the last n items of a history holds, once one more is published, the last n
-- of the history with that item.
publish-Holds :
    (n : ℕ) (history : List Item) (tag json : String) (now : Time) (esc : EventCollector)
    → Holds n history esc
    → Holds n
        (history ++ (record { tag = tag; json = json; timestamp = now; marshal_cache = none } ∷ []))
        (publish tag json now esc)
unfolding publish
publish-Holds n history tag json now esc h =
    let x : Item = record { tag = tag; json = json; timestamp = now; marshal_cache = none } in
    let grown : esc.items ++ (x ∷ []) ≡ last n history ++ (x ∷ []) =
      ap (λ xs. xs ++ (x ∷ [])) h.window in
    let test : ltb_ℤ esc.max_items (pos (length (esc.items ++ (x ∷ []))))
        ≡ ltb n (length (last n history ++ (x ∷ []))) =
      ap (λ z. ltb_ℤ z (pos (length (esc.items ++ (x ∷ []))))) h.room
      ∙ ap (λ xs. ltb n (length xs)) grown in
    if_branches (Holds n (history ++ (x ∷ [])))
      (ltb_ℤ esc.max_items (pos (length (esc.items ++ (x ∷ [])))))
      (λ full. record {
        room = h.room;
        window = ap (drop 1) grown ∙ slide_full n history x (sym test ∙ full);
      })
      (λ free. record { room = h.room; window = grown ∙ slide_free n history x (sym test ∙ free) })

run_task-Holds :
    {E : Type 0} (stream : (tag bytes : String) → E → E) (n : ℕ) (history : List Item) (task : Task)
    (now : Time) (r : Running E)
    → Holds n history r.collector
    → Holds n (history ++ collected task now) (run_task stream task now r).collector
unfolding run_task
run_task-Holds stream n history (publish_stream tag bytes) now r h = rw (append-nil history) h
run_task-Holds stream n history (publish_collector tag bytes) now r h =
    publish-Holds n history tag bytes now r.collector h

-- A collector that holds the last n items of a history holds, once some goroutines have run in any
-- order, the last n of the history followed by the events that they published.
pub Runs-Holds :
    {E : Type 0} (stream : (tag bytes : String) → E → E) (n : ℕ) (history published : List Item)
    (r r' : Running E)
    → Holds n history r.collector
    → Runs stream r published r'
    → Holds n (history ++ published) r'.collector
Runs-Holds stream n history _ r _ h stop = rw (append-nil history) h
Runs-Holds stream n history _ r r' h (step {published = rest} before after task now e runs) =
    rw (sym (append_assoc history (collected task now) rest)) (
      Runs-Holds stream n (history ++ collected task now) rest
        (run_task stream task now (record r { tasks = before ++ after })) r'
        (run_task-Holds stream n history task now (record r { tasks = before ++ after }) h) runs)

-- How often an event stands among the waiting goroutines of the collector, and among the items.
unfoldable pub waiting : (tag bytes : String) → List Task → ℕ
waiting tag bytes [] = 0
waiting tag bytes (publish_stream t b ∷ tasks) = waiting tag bytes tasks
waiting tag bytes (publish_collector t b ∷ tasks) =
    let rest = waiting tag bytes tasks in if t == tag && b == bytes then suc rest else rest

unfoldable pub counted : (tag bytes : String) → List Item → ℕ
counted tag bytes [] = 0
counted tag bytes (item ∷ items) =
    let rest = counted tag bytes items in
    if item.tag == tag && item.json == bytes then suc rest else rest

picked :
    (tag bytes : String) (before after : List Task) (task : Task) (now : Time)
    → waiting tag bytes (before ++ (task ∷ after))
      ≡ counted tag bytes (collected task now) + waiting tag bytes (before ++ after)
unfolding waiting counted
picked tag bytes [] after (publish_stream t b) now = omega arith
picked tag bytes [] after (publish_collector t b) now = ground arith
picked tag bytes (publish_stream t b ∷ before) after task now =
    picked tag bytes before after task now
picked tag bytes (publish_collector t b ∷ before) after task now =
    ground (arith, picked tag bytes before after task now)

pub counted-append :
    (tag bytes : String) (xs ys : List Item)
    → counted tag bytes (xs ++ ys) ≡ counted tag bytes xs + counted tag bytes ys
unfolding counted
counted-append tag bytes [] ys = omega arith
counted-append tag bytes (x ∷ xs) ys = ground (arith, counted-append tag bytes xs ys)

-- Running the goroutines in any order neither loses nor repeats an event: it was waiting for the
-- collector as often as it has been published and still waits.
pub Runs-counted :
    {E : Type 0} (stream : (tag bytes : String) → E → E) (tag bytes : String)
    (published : List Item) (r r' : Running E)
    → Runs stream r published r'
    → waiting tag bytes r.tasks ≡ counted tag bytes published + waiting tag bytes r'.tasks
unfolding counted run_task
Runs-counted stream tag bytes _ r _ stop = omega arith
Runs-counted stream tag bytes _ r r' (step {published = rest} before after task now e runs) =
    let later =
      Runs-counted stream tag bytes rest
        (run_task stream task now (record r { tasks = before ++ after })) r' runs in
    let kept = same_tasks task in
    let head = ap (waiting tag bytes) e in
    grind (
      arith,
      later,
      kept,
      head,
      picked tag bytes before after task now,
      counted-append tag bytes (collected task now) rest,
    )
  where
    same_tasks :
        (t : Task)
        → waiting tag bytes (run_task stream t now (record r { tasks = before ++ after })).tasks
          ≡ waiting tag bytes (before ++ after)
    same_tasks (publish_stream _ _) = refl
    same_tasks (publish_collector _ _) = refl
