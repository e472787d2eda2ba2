-- ===== src/Tests/Collector.antt =====
-- Goroutines of two events that run in the other order, with a collector of one item.
use userd.Common.{◌≤◌, length, ◌++◌, String, ◌≡◌, refl, List, [], ◌∷◌, none}
use userd.Common.Int.{pos}
use userd.Service.Backends.{publish_stream, publish_collector}
use userd.Service.Collector.{Item, EventCollector, publish, Running, run_task, Runs, stop, step}
use userd.Service.Collector.Finish.{steps, Runs-Ended}
use userd.Service.Collector.Window.{Holds, Runs-Holds, waiting, counted}

abbrev streams : (tag bytes : String) → List String → List String
streams tag bytes sent = tag ∷ sent

abbrev pub empty_collector : EventCollector
empty_collector = record { max_items = pos 1; items = [] }

abbrev two_events : Running (List String)
two_events = record {
  tasks =
      publish_stream "created" "1"
      ∷ publish_collector "created" "1"
      ∷ publish_stream "verified" "2"
      ∷ publish_collector "verified" "2"
      ∷ [];
  collector = empty_collector;
  stream = [];
}

abbrev created : Item
created = record { tag = "created"; json = "1"; timestamp = 9; marshal_cache = none }

abbrev verified : Item
verified = record { tag = "verified"; json = "2"; timestamp = 5; marshal_cache = none }

abbrev later : Running (List String)
later = record {
  tasks = publish_stream "created" "1" ∷ publish_stream "verified" "2" ∷ [];
  collector = publish "created" "1" 9 (publish "verified" "2" 5 empty_collector);
  stream = [];
}

reordered : Runs streams two_events (verified ∷ created ∷ []) later
unfolding run_task
reordered =
    step
      (publish_stream "created" "1"
        ∷ publish_collector "created" "1"
        ∷ publish_stream "verified" "2"
        ∷ [])
      [] (publish_collector "verified" "2") 5 refl
      (step (publish_stream "created" "1" ∷ []) (publish_stream "verified" "2" ∷ [])
        (publish_collector "created" "1") 9 refl stop)

empty-Holds : Holds 1 [] empty_collector
empty-Holds = record { room = refl; window = refl }

-- The event of the request that came first is kept, since it was published last.
kept : later.collector.items ≡ created ∷ []
unfolding publish
kept = refl

Runs-Holds_example : Holds 1 (verified ∷ created ∷ []) later.collector
Runs-Holds_example =
    Runs-Holds streams 1 [] (verified ∷ created ∷ []) two_events later empty-Holds reordered

-- After two of the four goroutines, the other two run.
Runs-Ended_example :
    (steps streams reordered ≤ length two_events.tasks)
    × ((rest : List Item) × ((r'' : Running (List String)) × (Runs streams later rest r''
            × ((r''.tasks ≡ [])
                × (Holds 1 ([] ++ ((verified ∷ created ∷ []) ++ rest)) r''.collector
                    × ((tag bytes : String)
                        → counted tag bytes ((verified ∷ created ∷ []) ++ rest)
                          ≡ waiting tag bytes two_events.tasks))))))
Runs-Ended_example =
    Runs-Ended streams 1 [] (verified ∷ created ∷ []) two_events later empty-Holds reordered 12
