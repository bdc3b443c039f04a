-- ===== src/Tests/Store.antt =====
-- Witnesses for the control-plane store of internal/api.
use harness_trajectory_bench.Prelude.{
  ℕ, ◌+◌, ◌^◌, ◌≤◌, String, ◌≡◌, refl, ◌↔◌, true, false, Option, none, some, List, ◌∷◌, ◌++◌, arith,
  ok, lookup, insert, pos, [], nat_eq, string_eq, bool_eq, list_eq, pair_eq,
}
use harness_trajectory_bench.Events.Types.{TrackedEvent}
use harness_trajectory_bench.Appender.State.{
  append, encode_frame, commit, seal, write_marker, sync_directory, check_marker,
}
use harness_trajectory_bench.Events.Validate.{validate_event}
use harness_trajectory_bench.Events.Helpers.{is_json_object, validate_surface_op}
use harness_trajectory_bench.Events.Core.{validate_core}
use harness_trajectory_bench.Store.Mutate.{
  mutate, transition, start_durable, finish_mutation, record_run,
}
use harness_trajectory_bench.Store.Persist.{must_persist, persist, write_state}
use harness_trajectory_bench.Appender.Lifetime.{created}
use harness_trajectory_bench.Store.Types.{LifecycleMutation, RunSpec, Run, ApiError}
use harness_trajectory_bench.Store.State.{done, written, Store, wrote, started}
use harness_trajectory_bench.Store.Append.{Deps, events_of, append_locked}
use harness_trajectory_bench.Store.Create.{not_collected}
use harness_trajectory_bench.Store.Requests.{Request, mutation, completion, handle}
use harness_trajectory_bench.Store.TrustedLog.{TrustedLog, appender_log}
use harness_trajectory_bench.Store.Lifecycle.{Moved}
use harness_trajectory_bench.Store.Sessions.{
  Session, idle, served, Session-Advanced, terminal_is_final,
}
use harness_trajectory_bench.Store.Again.{mutate-again}
use harness_trajectory_bench.Store.History.{Session-Longer}
use harness_trajectory_bench.Store.Ahead.{WrittenAhead, Session-WrittenAhead}
use harness_trajectory_bench.Store.Latch.{latched-handle}
use harness_trajectory_bench.Store.Recovery.{
  recover_persisted_runs, recover_all, recover_run, recover_interrupted,
}
use harness_trajectory_bench.Store.Recovered.{Finalized, recover-Finalized}
use harness_trajectory_bench.Store.Pages.{get_page, panicked, follow, parse_limit}
use harness_trajectory_bench.Store.Paging.{follow-every_item, get_page-panics}
use harness_trajectory_bench.Tests.Fixtures.{toy_hash, toy_json, empty_object}
use harness_trajectory_bench.Tests.Appending.{calm, calm_seal}

abbrev toy_deps : Deps TrustedLog
toy_deps = record {
  log = appender_log toy_json toy_hash;
  json = toy_json;
  hash = toy_hash;
  lifecycle_data = λ reason status. empty_object;
  create_print = λ req. req.idempotency_key;
  mutation_print = λ m. m.reason;
}

abbrev toy_log : TrustedLog
toy_log = record { appender = created; appends = λ n. calm; seals = λ n. calm_seal }

abbrev toy_spec : RunSpec
toy_spec = record {
  schema_version = "v1";
  harness = "h";
  suite = "s";
  backend = "b";
  parameters = [];
  verified = false;
}

abbrev run_in : String → Run
run_in status = record {
  id = "run-a";
  spec = toy_spec;
  status = status;
  created_at = some (pos 1);
  updated_at = some (pos 1);
}

-- A durable store with a driver and one run.
abbrev store_with : String → Option String → Store TrustedLog
store_with status error = record {
  book = record {
    runs = ("run-a", run_in status) ∷ [];
    evidence = ("run-a", not_collected "run-a") ∷ [];
    idempotency = [];
  };
  logs = record { events = []; event_logs = ("run-a", toy_log) ∷ [] };
  files = record { root = "/data"; persist_error = error; disk = [] };
  world = record {
    clock = λ n. pos (n + 2);
    ids = λ n. none;
    writes = λ n. written;
    has_driver = true;
    can_abort = true;
    driver = λ n. none;
    has_factory = true;
    factory = λ n. ok (some toy_log);
    effects = [];
  };
}

abbrev mutation_to : String → Request
mutation_to action =
    mutation "run-a" (record { action = action; idempotency_key = "k"; reason = "asked" })

abbrev served_by : String → Request → Store TrustedLog
served_by status request = (handle toy_deps request (store_with status none)).1

one_request :
    (status : String) (request : Request)
    → Session toy_deps (store_with status none) (served_by status request)
one_request status request = served idle request (λ id e. absurd (ground (arith, e)))

-- The driver is asked to start the run after the state `running` is on disk.
started_run :
    (served_by "created" (mutation_to "start")).world.effects
    ≡ started "run-a" ∷ wrote "run-a" "running" ∷ []
unfolding handle mutate lookup transition start_durable finish_mutation append_locked append
    encode_frame validate_event is_json_object validate_surface_op validate_core commit record_run
    must_persist persist write_state insert
started_run = refl

found_run :
    (status : String) → lookup "run-a" (store_with status none).book.runs ≡ some (run_in status)
unfolding lookup
found_run status = refl

Session-Advanced_example :
    (t : Run) × (lookup "run-a" (served_by "created" (mutation_to "start")).book.runs ≡ some t)
    × Moved (run_in "created") t
Session-Advanced_example =
    Session-Advanced toy_deps (store_with "created" none)
      (served_by "created" (mutation_to "start")) (one_request "created" (mutation_to "start"))
      "run-a" (run_in "created") (found_run "created")

terminal_is_final_example :
    (u : Run) × (lookup "run-a" (served_by "stopped" (completion "run-a" "failed" "late")).book.runs
      ≡ some u)
    × (u.status ≡ "stopped")
terminal_is_final_example =
    terminal_is_final toy_deps (store_with "stopped" none)
      (served_by "stopped" (completion "run-a" "failed" "late")) "run-a" (run_in "stopped")
      (one_request "stopped" (completion "run-a" "failed" "late")) (found_run "stopped") refl

Session-Longer_example :
    (more : List TrackedEvent) × (events_of toy_deps "run-a"
        (served_by "created" (mutation_to "start"))
      ≡ events_of toy_deps "run-a" (store_with "created" none) ++ more)
Session-Longer_example =
    Session-Longer toy_deps (store_with "created" none) (served_by "created" (mutation_to "start"))
      "run-a" (run_in "created") (one_request "created" (mutation_to "start")) (found_run "created")

Session-WrittenAhead_example :
    WrittenAhead (served_by "created" (mutation_to "start")).world.effects
Session-WrittenAhead_example =
    Session-WrittenAhead toy_deps (store_with "created" none)
      (served_by "created" (mutation_to "start")) (one_request "created" (mutation_to "start"))
      (λ e. cc) tt

latched-handle_example :
    (error : ApiError) × (handle toy_deps
        (mutation_to "start")
        (store_with "created" (some "disk full"))
      ≡ (some error, store_with "created" (some "disk full")))
latched-handle_example =
    latched-handle toy_deps (store_with "created" (some "disk full")) (mutation_to "start")
      "disk full" refl refl

abbrev restarted : Store TrustedLog
restarted = (recover_persisted_runs toy_deps (store_with "running" none)).1

recover-Finalized_example : Finalized "run-a" restarted.book
unfolding recover_persisted_runs recover_all recover_run recover_interrupted lookup append_locked
    append encode_frame validate_event is_json_object validate_surface_op validate_core commit
    persist write_state seal insert write_marker sync_directory check_marker
recover-Finalized_example =
    recover-Finalized toy_deps (store_with "running" none) restarted "run-a" (run_in "running") refl
      (found_run "running")

abbrev three : List ℕ
three = 1 ∷ 2 ∷ 3 ∷ []

abbrev single : List ℕ
single = 1 ∷ []

follow-every_item_example : follow 4 three 2 0 ≡ some three
follow-every_item_example = follow-every_item three 2 (omega arith)

get_page-panics_example :
    (get_page (λ raw. some (2 ^ 63)) single ("9223372036854775808" ∷ []) [] ≡ panicked)
    ↔ (2 ^ 63 ≤ 2 ^ 63)
unfolding parse_limit
get_page-panics_example =
    get_page-panics (λ raw. some (2 ^ 63)) single "9223372036854775808" [] (2 ^ 63) 100 (λ e. cc)
      refl refl

abbrev start_request : LifecycleMutation
start_request = record { action = "start"; idempotency_key = "k"; reason = "asked" }

abbrev running_run : Run
running_run = record (run_in "running") { updated_at = some (pos 2) }

abbrev started_store : Store TrustedLog
started_store =
    (mutate toy_deps toy_deps.mutation_print "run-a" start_request (store_with "created" none)).1

mutate-again_example :
    mutate toy_deps toy_deps.mutation_print "run-a" start_request started_store
    ≡ (done running_run, started_store)
unfolding mutate lookup transition start_durable finish_mutation append_locked append encode_frame
    validate_event is_json_object validate_surface_op validate_core commit record_run must_persist
    persist write_state insert
mutate-again_example =
    mutate-again toy_deps toy_deps.mutation_print "run-a" start_request refl
      (store_with "created" none) started_store running_run refl
