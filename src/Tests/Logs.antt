-- ===== src/Tests/Logs.antt =====
-- A log of two events on the surface, and the theorems on it.
use harness_trajectory_bench.Prelude.{
  ◌≡◌, refl, ◌↔◌, false, none, some, List, [], ◌∷◌, if◌then◌else◌, ◌==◌, nat_eq, string_eq, bool_eq,
  list_beq, list_eq, pair_eq, length, All, ok, pass, lookup, insert, uint64,
}
use harness_trajectory_bench.Events.Types.{TrackedEvent, ContentBlock}
use harness_trajectory_bench.Events.Helpers.{one_of, is_json_object, validate_surface_op}
use harness_trajectory_bench.Events.Content.{validate_content}
use harness_trajectory_bench.Events.Codec.{Codec}
use harness_trajectory_bench.Events.Core.{validate_core}
use harness_trajectory_bench.Events.Validate.{validate_event}
use harness_trajectory_bench.Events.Fuel.{content_fuel_enough}
use harness_trajectory_bench.Appender.State.{append, encode_frame, commit}
use harness_trajectory_bench.Log.Validate.{
  validate_entry, correction_types, check_sources, validate_entries, validate_log,
}
use harness_trajectory_bench.Log.Accepts.{IsLog, validate_log_iff, session_validates}
use harness_trajectory_bench.Log.Replay.{apply, replay_from, replay}
use harness_trajectory_bench.Log.Surface.{visible, replay-visible}
use harness_trajectory_bench.Log.Analysis.{tally, bump, Analysis, count, tally_all, build}
use harness_trajectory_bench.Log.Counts.{tally_of, claimed_in, build_counts}
use harness_trajectory_bench.Log.Analysis.{loss_types}
use harness_trajectory_bench.Tests.Fixtures.{toy_hash, toy_json, plain}
use harness_trajectory_bench.Tests.Appending.{one, session}

-- The toy codec, reading `b'a'` as the text "append" and any other byte as the range 1 to 1.
abbrev surface_json : Codec
surface_json = record toy_json {
  text = λ b. if b == b'a' ∷ [] then some "append" else none;
  replace_op = λ b. some (record { op = "replace"; start = 1; end = 1 }, []);
  replace_range = λ b. some (record { op = "replace"; start = 1; end = 1 });
}

abbrev said : TrackedEvent
said = record (plain "run/start") { seq = 1; surface_op = b'a' ∷ [] }

abbrev edited : TrackedEvent
edited = record (plain "sensor/gap") { seq = 2; surface_op = b'r' ∷ [] }

abbrev log : List TrackedEvent
log = said ∷ edited ∷ []

replaced : replay surface_json log ≡ ok (edited ∷ [])
unfolding replay replay_from apply validate_surface_op list_beq
replaced = refl

replay-visible_example : edited ∷ [] ≡ visible surface_json log
replay-visible_example = replay-visible surface_json log replaced

validate_log_iff_example :
    (validate_log surface_json toy_hash log ≡ pass) ↔ IsLog surface_json toy_hash 1 log
validate_log_iff_example = validate_log_iff surface_json toy_hash log

no_corrections : All (λ e. correction_types e.event_type ≡ false) one.events
unfolding append encode_frame commit validate_event is_json_object validate_surface_op validate_core
no_corrections = (refl, tt)

session_validates_example : validate_log toy_json toy_hash one.events ≡ pass
session_validates_example = session_validates toy_json toy_hash one session no_corrections

abbrev started : TrackedEvent
started = record (plain "run/start") { seq = 1 }

abbrev analysis : Analysis
analysis = record {
  event_count = 1;
  type_counts = ("run/start", 1) ∷ [];
  plaintext_bytes = [];
  model_exchanges = [];
  sensor_loss_events = 0;
}

built : build toy_json toy_hash (started ∷ []) ≡ ok analysis
unfolding build validate_log validate_entries validate_entry validate_event is_json_object
    validate_surface_op validate_core check_sources tally_all tally bump insert count lookup
built = refl

build_counts_example :
    IsLog toy_json toy_hash 1 (started ∷ [])
    × (1 ≡ uint64 (length (started ∷ [])))
    × (count "run/start" analysis.type_counts
        ≡ uint64 (tally_of (λ e. e.event_type == "run/start") (started ∷ [])))
    × (count "egress" [] ≡ uint64 (claimed_in toy_json "egress" (started ∷ [])))
    × (0 ≡ uint64 (tally_of (λ e. one_of e.event_type loss_types) (started ∷ [])))
build_counts_example = build_counts toy_json toy_hash (started ∷ []) "run/start" "egress" built

abbrev block : ContentBlock
block = record {
  block_type = "text";
  text = "hi";
  id = "";
  name = "";
  arguments = "";
  tool_call_id = "";
  is_error = none;
  attachment = [];
  content = [];
}

content_fuel_enough_example :
    validate_content toy_json 5 ("text" ∷ []) (block ∷ [])
    ≡ validate_content toy_json 2 ("text" ∷ []) (block ∷ [])
content_fuel_enough_example = content_fuel_enough toy_json 3 ("text" ∷ []) (block ∷ [])
