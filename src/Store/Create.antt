-- ===== src/Store/Create.antt =====
-- `createContext` and `createDurableLocked` of internal/api/server.go.
use Prim.Native.String
use harness_trajectory_bench.Prelude.{
  ◌&&◌, ◌+◌, String, Bool, false, ◌||◌, Option, none, some, if◌then◌else◌, ◌==◌, ◌!=◌, Result, ok,
  err, insert, ℤ, [], nat_eq, string_eq, bool_eq, list_eq, pair_eq,
}
use harness_trajectory_bench.Store.Types.{
  RunSpec, CreateRunRequest, Run, VerificationResult, EvidenceReport, ApiError, at_key, zero_run,
  zero_report, zero_record,
}
use harness_trajectory_bench.Store.State.{
  Book, Logs, prepared, aborted, done, Action, pure, raise, refuse, gets, modify_book, perform, now,
  new_run_id, call_driver, set_run, set_evidence, set_record, remember, ◌>>=◌, ◌>>◌,
}
use harness_trajectory_bench.Store.Persist.{with_context, must_persist, latched}
use harness_trajectory_bench.Store.Append.{api_error, execution_error, prior_run, unless_prior}

abbrev pub bad_spec : RunSpec → Bool
bad_spec spec =
    (spec.schema_version != "v1")
    || (spec.harness == "")
    || (spec.suite == "")
    || (spec.backend == "")

abbrev pub create_key : CreateRunRequest → String
create_key req = String.◌++◌ "create:" req.idempotency_key

abbrev pub failed_reservation : String → ℤ → VerificationResult
failed_reservation message t = record {
  status = "verification_error";
  eligible = false;
  summary = with_context "run reservation failed" message;
  checked_at = some t;
  tracked_event_chain_head = "";
  event_count = 0;
}

abbrev pub not_collected : String → EvidenceReport
not_collected id = record { run_id = id; status = "not_collected"; verification = none }

abbrev pub fail_record : Bool → String → Run → ApiError → Book → Book
fail_record keyed key r error b =
    if keyed
    then set_record key
        (record (at_key zero_record key b.idempotency) { run = r; failure = some error }) b
    else b

module _ {L : Type 0} where
  -- `abortPrepared`, which asks the driver if there is one that has the method `Abort`.
  abbrev pub abort_prepared : String → Action L (Unit {0})
  abort_prepared id s =
      if s.world.has_driver && s.world.can_abort then perform (aborted id) s else (done tt, s)

  abbrev pub made_log : Action L (Unit {0}) → Result (Option L) → Action L (Option L)
  made_log cleanup (err m) = do
    cleanup
    raise (api_error "internal" (with_context "create event log" m))
  made_log cleanup (ok none) = do
    cleanup
    raise (api_error "internal" "event log factory returned nil")
  made_log cleanup (ok (some log)) = pure (some log)

  -- The log of a new run, if the store has a factory; `cleanup` runs before an error is returned.
  abbrev pub make_log : Action L (Unit {0}) → Action L (Option L)
  make_log cleanup s =
      if s.world.has_factory
      then made_log cleanup (s.world.factory 0)
          (record s { world = record s.world { factory = λ n. s.world.factory (n + 1) } })
      else (done none, s)

  abbrev pub keep_log : String → Option L → Logs L → Logs L
  keep_log id none l = l
  keep_log id (some log) l = record l { event_logs = insert id log l.event_logs }

  abbrev pub open_log_of : String → Option L → Action L (Unit {0})
  open_log_of id log s = (
    done tt,
    record s { logs = record (keep_log id log s.logs) { events = insert id [] s.logs.events } },
  )

  abbrev pub reserve : Option String → Action L (Unit {0})
  reserve none = pure tt
  reserve (some e) = raise (execution_error "prepare run" e)

  module _ (fingerprint : CreateRunRequest → String) where
    -- The entries of a new run in the maps of the store.
    abbrev pub register : Run → CreateRunRequest → Option L → Action L (Unit {0})
    register r req log = do
      open_log_of r.id log
      modify_book λ b.
          remember (req.idempotency_key != "") (create_key req)
            (record { run = r; request = fingerprint req; failure = none })
            (set_evidence r.id (not_collected r.id) (set_run r.id r b))

    unfoldable pub create_volatile : Run → CreateRunRequest → Action L Run
    create_volatile r req = do
      has_driver ← gets (λ s. s.world.has_driver)
      if has_driver then (do e ← call_driver (prepared r.id); reserve e) else pure tt
      log ← make_log (abort_prepared r.id)
      register r req log
      pure r

    -- The driver refused the reservation of a run that is on disk already.
    unfoldable pub fail_reservation : Run → CreateRunRequest → String → Action L Run
    fail_reservation r req message = do
      stored ← gets (λ s. at_key zero_run r.id s.book.runs)
      t ← now
      let failure : Run = record stored { status = "failed"; updated_at = some t }
      modify_book (set_run r.id failure)
      report ← gets (λ s. at_key zero_report r.id s.book.evidence)
      u ← now
      modify_book λ b.
          fail_record (req.idempotency_key != "") (create_key req) failure
            (execution_error "prepare run" message)
            (set_evidence r.id
              (record report {
                status = "verification_recorded";
                verification = some (failed_reservation message u);
              })
              b)
      must_persist "persist failed run reservation" r.id
      raise (execution_error "prepare run" message)

    abbrev pub reserved : Run → CreateRunRequest → Option String → Action L Run
    reserved r req none = pure r
    reserved r req (some e) = fail_reservation r req e

    -- The run is on disk before the driver is asked.
    unfoldable pub create_durable : Run → CreateRunRequest → Action L Run
    create_durable r req = do
      log ← make_log (pure tt)
      register r req log
      must_persist "persist created run" r.id
      has_driver ← gets (λ s. s.world.has_driver)
      if has_driver then (do e ← call_driver (prepared r.id); reserved r req e) else pure r

    unfoldable pub create_new : CreateRunRequest → Action L Run
    create_new req = do
      t ← now
      id ← new_run_id
      let r : Run = record {
        id = id;
        spec = req.spec;
        status = "created";
        created_at = some t;
        updated_at = some t;
      }
      root ← gets (λ s. s.files.root)
      if root != "" then create_durable r req else create_volatile r req

    unfoldable pub create : CreateRunRequest → Action L Run
    create req = do
      refuse (bad_spec req.spec)
          (api_error "validation" "spec requires schemaVersion v1, harness, suite, and backend")
      latched
      prior ← prior_run (req.idempotency_key != "") (create_key req) (fingerprint req)
      unless_prior prior (create_new req)
