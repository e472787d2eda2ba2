-- ===== src/EventStream/Laws.antt =====
-- What the broadcaster of EventStreams in main.go starts for an event.
use mathlib.Core.List
use userd.Common.{String, ◌≡◌, refl, sym, ap, ◌∙◌, List, [], ◌∷◌, map, ◌==◌, if◌then◌else◌, arith}
use userd.Part.{Part, ready, ends, and_then}
use userd.Exec.{Outcome, ok, err, panic}
use userd.EventStream.{
  Stream, redis_event_stream, cores_event_log, log_event_stream, none_event_log, Switches, opened,
  new_file_log_event_stream, new_stream, Broadcaster, new_broadcaster, add_stream, add_streams,
  event_streams, broadcast,
}

-- The stream that each name stands for.
abbrev pub stream_named : Switches → String → Stream
stream_named switches name =
    if name == "redis"
    then redis_event_stream switches.redis_prefix switches.redis_pub_sub
    else if name == "cores"
    then cores_event_log switches.cores_prefix
    else if name == "log"
    then log_event_stream
    else none_event_log

opened_lem : (r : Outcome (Unit {0})) (stream s : Stream) → opened r stream ≡ ready s → s ≡ stream
unfolding and_then
opened_lem (ok a) stream s e = cc
opened_lem (err x) stream s e = cc
opened_lem panic stream s e = cc

new_stream_lem :
    (switches : Switches) (name : String) (s : Stream)
    → new_stream switches name ≡ ready s
    → s ≡ stream_named switches name
unfolding new_stream new_file_log_event_stream
new_stream_lem switches name s e = ground (
  arith,
  opened_lem switches.bus (cores_event_log switches.cores_prefix) s,
  opened_lem switches.log_opened log_event_stream s,
)

added :
    (switches : Switches) (names : List String) (before after : Broadcaster)
    → add_streams switches names before ≡ ready after
    → after.streams ≡ List.◌++◌ before.streams (map (stream_named switches) names)
unfolding add_streams add_stream and_then
added switches [] before after e =
    let same : before ≡ after = cc in
    ap (λ b. b.streams) (sym same) ∙ sym (List.append-nil before.streams)
added switches (name ∷ names) before after e =
    go (λ b. added switches names b after) (new_stream switches name) refl e
  where
    go :
        ((b : Broadcaster)
          → add_streams switches names b ≡ ready after
          → after.streams ≡ List.◌++◌ b.streams (map (stream_named switches) names))
        → (m : Part Stream) → new_stream switches name ≡ m
        → and_then m (λ stream. add_streams switches names (add_stream stream before)) ≡ ready after
        → after.streams ≡ List.◌++◌ before.streams (map (stream_named switches) (name ∷ names))
    go rest (ready stream) named e =
        rest (add_stream stream before) e
        ∙ List.append_assoc before.streams (stream ∷ []) (map (stream_named switches) names)
        ∙ ap (λ s. List.◌++◌ before.streams (s ∷ map (stream_named switches) names))
            (new_stream_lem switches name stream named)
    go rest (ends ending) named e = cc

-- Where EventStreams builds a broadcaster for the names of the flag, Publish of an event starts one
-- goroutine for each name, in their order, on the stream of that name.
pub broadcast-event_streams :
    (switches : Switches) (names : List String) (broadcaster : Broadcaster) (tag bytes : String)
    → event_streams switches names ≡ ready broadcaster
    → broadcast broadcaster tag bytes
      ≡ map (λ name. record { stream = stream_named switches name; tag = tag; bytes = bytes }) names
unfolding event_streams broadcast
broadcast-event_streams switches names broadcaster tag bytes e =
    ap (map (λ stream. record { stream = stream; tag = tag; bytes = bytes }))
      (added switches names new_broadcaster broadcaster e)
    ∙ List.map-map (λ stream. record { stream = stream; tag = tag; bytes = bytes })
        (stream_named switches) names
