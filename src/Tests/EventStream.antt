-- ===== src/Tests/EventStream.antt =====
-- The flags of a server that publishes to Redis and to a log on the standard output.
use userd.Common.{◌≡◌, refl, true, [], ◌∷◌}
use userd.Errors.{foreign}
use userd.Part.{ready, and_then}
use userd.Exec.{err}
use userd.EventStream.{
  redis_event_stream, log_event_stream, Switches, Broadcaster, event_streams, add_streams,
  add_stream, new_stream, new_file_log_event_stream, broadcast, channel,
}
use userd.EventStream.Laws.{broadcast-event_streams}

abbrev switches : Switches
switches = record {
  redis_prefix = "userd";
  redis_pub_sub = true;
  cores_prefix = "";
  log_file = "-";
  bus = err (foreign 1);
  log_opened = err (foreign 1);
}

abbrev broadcaster : Broadcaster
broadcaster = record { streams = redis_event_stream "userd" true ∷ log_event_stream ∷ [] }

built_broadcaster : event_streams switches ("redis" ∷ "log" ∷ []) ≡ ready broadcaster
unfolding and_then event_streams add_streams add_stream new_stream new_file_log_event_stream
built_broadcaster = refl

channel_name : channel "userd" "user.created" ≡ "userd.user.created"
unfolding channel
channel_name = refl

broadcast-event_streams_example :
    broadcast broadcaster "user.created" "{}"
    ≡ record { stream = redis_event_stream "userd" true; tag = "user.created"; bytes = "{}" }
      ∷ record { stream = log_event_stream; tag = "user.created"; bytes = "{}" }
      ∷ []
broadcast-event_streams_example =
    broadcast-event_streams switches ("redis" ∷ "log" ∷ []) broadcaster "user.created" "{}"
      built_broadcaster
