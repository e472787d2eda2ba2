-- ===== src/Service/Collector/Finish.antt =====
-- That the goroutines of logEvent come to an end, in whatever order they run.
use userd.Common.{
  ℕ, suc, ◌+◌, ◌≤◌, String, ◌≡◌, refl, sym, ap, arith, List, [], ◌∷◌, ◌++◌, length, length-append,
}
use mathlib.Core.List.{append_assoc}
use userd.User.{Time}
use userd.Service.Backends.{Task, publish_stream, publish_collector}
use userd.Service.Collector.{Item, Running, run_task, collected, Runs, stop, step}
use userd.Service.Collector.Window.{
  Holds, Runs-Holds, waiting, counted, counted-append, Runs-counted,
}

module _ {E : Type 0} (stream : (tag bytes : String) → E → E) where
  -- How many goroutines ran.
  abbrev pub steps : {published : List Item} {r r' : Running E} → Runs stream r published r' → ℕ
  steps stop = 0
  steps (step before after task now e runs) = suc (steps runs)

  -- A goroutine starts no other.
  run_task-tasks :
      (task : Task) (now : Time) (r : Running E) → (run_task stream task now r).tasks ≡ r.tasks
  unfolding run_task
  run_task-tasks (publish_stream _ _) now r = refl
  run_task-tasks (publish_collector _ _) now r = refl

  steps-tasks :
      {published : List Item} {r r' : Running E} (runs : Runs stream r published r')
      → steps runs + length r'.tasks ≡ length r.tasks
  steps-tasks stop = omega arith
  steps-tasks {r} (step before after task now e runs) =
      let rest = steps-tasks runs in
      let left = ap length (run_task-tasks task now (record r { tasks = before ++ after })) in
      let size = ap length e in
      let with_task = length-append before (task ∷ after) in
      let without = length-append before after in omega arith

  -- The rest run, in the order in which they wait.
  abbrev Ended : Running E → Type 0
  Ended r = (rest : List Item) × ((r' : Running E) × (Runs stream r rest r' × (r'.tasks ≡ [])))

  ended : (now : Time) (tasks : List Task) (r : Running E) → r.tasks ≡ tasks → Ended r
  ended now [] r e = ([], (r, (stop, e)))
  ended now (task ∷ tasks) r e =
      let (rest, (r', (runs, done))) =
        ended now tasks (run_task stream task now (record r { tasks = tasks }))
          (run_task-tasks task now (record r { tasks = tasks })) in
      (collected task now ++ rest, (r', (step [] tasks task now e runs, done)))

  -- From a collector that holds the last n items of a history, whatever goroutines of the events have
  -- run, in whatever order: no more have run than waited, and the others can run until none waits. The
  -- collector then holds the last n items of the history followed by events in which each event stands
  -- exactly as often as a goroutine waited to publish it there.
  pub Runs-Ended :
      (n : ℕ) (history published : List Item) (r r' : Running E)
      → Holds n history r.collector
      → (runs : Runs stream r published r') (now : Time)
      → (steps runs ≤ length r.tasks)
        × ((rest : List Item) × ((r'' : Running E) × (Runs stream r' rest r''
                × ((r''.tasks ≡ [])
                    × (Holds n (history ++ (published ++ rest)) r''.collector
                        × ((tag bytes : String)
                            → counted tag bytes (published ++ rest)
                              ≡ waiting tag bytes r.tasks))))))
  unfolding waiting
  Runs-Ended n history published r r' holds runs now =
      let (rest, (r'', (more, done))) = ended now r'.tasks r' refl in
      let bound = steps-tasks runs in
      let then_holds : Holds n (history ++ (published ++ rest)) r''.collector =
        rw (sym (append_assoc history published rest)) (
          Runs-Holds stream n (history ++ published) rest r' r''
            (Runs-Holds stream n history published r r' holds runs) more) in
      (
        omega arith,
        (rest, (r'', (more, (done, (then_holds, λ tag bytes. all tag bytes rest r'' more done))))),
      )
    where
      all :
          (tag bytes : String) (rest : List Item) (r'' : Running E)
          → Runs stream r' rest r''
          → r''.tasks ≡ []
          → counted tag bytes (published ++ rest) ≡ waiting tag bytes r.tasks
      all tag bytes rest r'' more done =
          let first = Runs-counted stream tag bytes published r r' runs in
          let second = Runs-counted stream tag bytes rest r' r'' more in
          let none_left : waiting tag bytes r''.tasks ≡ 0 = ap (waiting tag bytes) done in
          let both = counted-append tag bytes published rest in omega arith
