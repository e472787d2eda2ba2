-- ===== src/EventStream.antt =====
-- service/eventstream, and EventStreams of main.go: where events are published. The connections (redigo,
-- the bus of cores-go, the writer of a log) are parameters, over a state W.
pub mod Laws
use Prim.Native.String.{◌++◌}
use userd.Common.{String, Bool, ◌||◌, List, [], ◌∷◌, map, ◌==◌, if◌then◌else◌}
use mathlib.Core.List
use userd.Part.{Ending, returned, panicked, exited, Part, ready, ends, and_then, or_panic}
use userd.Exec.{Outcome, ok, err, panic, Exec}

pub data Stream : Type 0 where
  redis_event_stream : (prefix : String) (use_publish : Bool) → Stream
  cores_event_log : (prefix : String) → Stream
  log_event_stream none_event_log : Stream

pub record Outside (W : Type 0) : Type 0 where
  -- con.Do on a connection of the pool
  pub do_command : (command channel msg : String) → Exec W (Unit {0})
  pub bus_publish : (tag bytes : String) → Exec W (Unit {0})
  pub printf : (event bytes : String) → W → W

-- redisEventStream.channel
unfoldable pub channel : (prefix tag : String) → String
channel prefix tag = if prefix == "" then tag else (prefix ++ ".") ++ tag

-- coresEventLog.withPrefix
unfoldable pub with_prefix : (prefix tag : String) → String
with_prefix prefix tag = if prefix == "" then tag else (prefix ++ ".") ++ tag

-- An error of the connection ends the process.
abbrev pub or_exit : Outcome (Unit {0}) → Ending
or_exit (ok _) = returned
or_exit (err e) = exited
or_exit panic = panicked

module _ {W : Type 0} (outside : Outside W) where
  -- Publish, of each stream.
  unfoldable pub publish : Stream → (tag bytes : String) → W → Ending × W
  publish (redis_event_stream prefix use_publish) tag bytes w =
      let command = if use_publish then "PUBLISH" else "RPUSH" in
      let (r, w') = outside.do_command command (channel prefix tag) bytes w in (or_exit r, w')
  publish (cores_event_log prefix) tag bytes w =
      let (r, w') = outside.bus_publish (with_prefix prefix tag) bytes w in (or_exit r, w')
  publish log_event_stream tag bytes w = (returned, outside.printf tag bytes w)
  publish none_event_log tag bytes w = (returned, w)

pub record Broadcaster : Type 0 where
  pub streams : List Stream

abbrev pub new_broadcaster : Broadcaster
new_broadcaster = record { streams = [] }

unfoldable pub add_stream : Stream → Broadcaster → Broadcaster
add_stream stream broadcaster = record { streams = List.◌++◌ broadcaster.streams (stream ∷ []) }

-- A goroutine that publishes.
pub record Publication : Type 0 where
  pub stream : Stream
  pub tag : String
  pub bytes : String

-- Broadcaster.Publish: the goroutines that it starts, in order.
unfoldable pub broadcast : Broadcaster → (tag bytes : String) → List Publication
broadcast broadcaster tag bytes =
    map (λ stream. record { stream = stream; tag = tag; bytes = bytes }) broadcaster.streams

-- The flags of main.go, and whether the bus can be reached and the log file opened; both constructors
-- panic where not.
pub record Switches : Type 0 where
  pub redis_prefix : String
  pub redis_pub_sub : Bool
  pub cores_prefix : String
  pub log_file : String
  pub bus : Outcome (Unit {0})
  pub log_opened : Outcome (Unit {0})

-- A stream, once what it writes to is open.
abbrev pub opened : Outcome (Unit {0}) → Stream → Part Stream
opened r stream = and_then (or_panic r) (λ _. ready stream)

unfoldable pub new_file_log_event_stream : Switches → Part Stream
new_file_log_event_stream switches =
    if switches.log_file == "-" || switches.log_file == ""
    then ready log_event_stream
    else opened switches.log_opened log_event_stream

-- The `switch` of EventStreams.
unfoldable pub new_stream : Switches → (name : String) → Part Stream
new_stream switches name =
    if name == "redis"
    then ready (redis_event_stream switches.redis_prefix switches.redis_pub_sub)
    else if name == "cores"
    then opened switches.bus (cores_event_log switches.cores_prefix)
    else if name == "log"
    then new_file_log_event_stream switches
    else if name == "none"
    then ready none_event_log
    else ends exited

-- The loop of EventStreams, over the names between the commas of the flag.
unfoldable pub add_streams : Switches → List String → Broadcaster → Part Broadcaster
add_streams switches [] broadcaster = ready broadcaster
add_streams switches (name ∷ names) broadcaster =
    and_then (new_stream switches name)
      λ stream. add_streams switches names (add_stream stream broadcaster)

unfoldable pub event_streams : Switches → List String → Part Broadcaster
event_streams switches names = add_streams switches names new_broadcaster
