-- ===== src/Store/Publish.antt =====
-- `Complete`, `AppendEvent`, `SetEvidenceVerification`, `SealRun`, `RunHashHead` and
-- `ExportEvidence` of internal/api/server.go.
use harness_trajectory_bench.Prelude.{
  String, Bool, true, false, ◌&&◌, ◌||◌, not, Option, none, some, if◌then◌else◌, ◌==◌, ◌!=◌, Bytes,
  Result, ok, err, Check, lookup, Timestamp, is_zero_time, nat_eq, string_eq, bool_eq, list_eq,
  pair_eq,
}
use harness_trajectory_bench.Events.Types.{TrackedEvent}
use harness_trajectory_bench.Store.Types.{Run, VerificationResult, at_key, zero_report}
use harness_trajectory_bench.Store.State.{
  Store, Reply, done, failed, Action, pure, raise, refuse, gets, modify_book, now, set_run,
  set_evidence, ◌>>=◌, ◌>>◌,
}
use harness_trajectory_bench.Store.Persist.{must_persist, latched}
use harness_trajectory_bench.Store.Append.{
  Deps, api_error, append_locked, lifecycle_event, find_run, put_log,
}
use harness_trajectory_bench.Store.Mutate.{with_status}

abbrev pub is_terminal : String → Bool
is_terminal status = (status == "stopped") || (status == "completed") || (status == "failed")

-- A run that is being stopped ends as stopped, however its backend ended.
abbrev pub completion_status : Run → String → String
completion_status r status = if r.status == "stopping" then "stopped" else status

abbrev pub recorded_status : VerificationResult → String
recorded_status v =
    if (v.status == "verified") && v.eligible then "verified" else "verification_recorded"

abbrev pub is_unset {ℓ} : {A : Type ℓ} → Option A → Bool
is_unset none = true
is_unset (some a) = false

module _ {L : Type 0} (deps : Deps L) where
  unfoldable pub finish_run : String → Run → String → String → Action L Run
  finish_run id r status reason = do
    stored ← append_locked deps id (lifecycle_event deps "run/finish" reason status)
    t ← now
    modify_book (set_run id (with_status r status t))
    must_persist "persist run completion" id
    pure (with_status r status t)

  -- A run that has ended already is left as it is.
  abbrev pub complete_run : String → Run → String → String → Action L Run
  complete_run id r status reason s =
      if is_terminal r.status
      then pure r s
      else (do
        refuse ((r.status != "running") && (r.status != "stopping"))
            (api_error "conflict" "only running runs can complete")
        finish_run id r (completion_status r status) reason)
          s

  unfoldable pub complete : String → String → String → Action L Run
  complete id status reason = do
    refuse ((status != "completed") && (status != "failed"))
        (api_error "validation" "completion status must be completed or failed")
    latched
    r ← find_run id
    complete_run id r status reason

  unfoldable pub append_event : String → TrackedEvent → Action L TrackedEvent
  append_event id event = do latched; r ← find_run id; append_locked deps id event

  abbrev pub sealed_log : String → Store L → L × Check → Reply (Unit {0}) × Store L
  sealed_log id s (log, ok sealed) = (done tt, put_log deps id log s)
  sealed_log id s (log, err m) = (failed (api_error "internal" m), put_log deps id log s)

  abbrev pub seal_log : String → Option L → Action L (Unit {0})
  seal_log id none s = (done tt, s)
  seal_log id (some log) s = sealed_log id s (deps.log.seal log)

  unfoldable pub seal_run : String → Action L (Unit {0})
  seal_run id = do
    r ← find_run id
    refuse (not (is_terminal r.status)) (api_error "conflict" "only terminal runs can be sealed")
    log ← gets (λ s. lookup id s.logs.event_logs)
    seal_log id log

  abbrev pub log_head : Option L → Action L String
  log_head none = raise (api_error "internal" "run has no durable event log")
  log_head (some log) = elim (deps.log.hash_head log) [
    | none ↦ raise (api_error "internal" "durable event log has no hash head")
    | some head ↦ pure head
  ]

  unfoldable pub run_hash_head : String → Action L String
  run_hash_head id = do r ← find_run id; log ← gets (λ s. lookup id s.logs.event_logs); log_head log

module _ {L : Type 0} where
  -- `CheckedAt`, which is the time of the request if the caller gives none.
  abbrev pub checked_time : Timestamp → Action L Timestamp
  checked_time t s = if is_zero_time t then (do u ← now; pure (some u)) s else (done t, s)

  unfoldable pub set_evidence_verification : String → VerificationResult → Action L (Unit {0})
  set_evidence_verification id verification = do
    latched
    r ← find_run id
    refuse (verification.status == "") (api_error "validation" "verification status is required")
    t ← checked_time verification.checked_at
    modify_book λ b.
        set_evidence id
          (record (at_key zero_report id b.evidence) {
            verification = some (record verification { checked_at = t });
            status = recorded_status verification;
          })
          b
    must_persist "persist evidence publication" id

  -- `os.ReadFile` of the bundle: its error, nothing for a file that does not exist, or its bytes.
  abbrev pub read_bundle : Result (Option Bytes) → Action L Bytes
  read_bundle (ok (some bundle)) = pure bundle
  read_bundle (ok none) = raise (api_error "conflict" "evidence bundle is not yet published")
  read_bundle (err m) = raise (api_error "internal" m)

  unfoldable pub export_evidence : (String → Result (Option Bytes)) → String → Action L Bytes
  export_evidence bundle_file id = do
    root ← gets (λ s. s.files.root)
    refuse (root == "")
        (api_error "execution" "evidence bundle export requires a persistent control-plane store")
    r ← find_run id
    refuse (not (is_terminal r.status))
        (api_error "conflict" "run has not reached a terminal state")
    report ← gets (λ s. at_key zero_report id s.book.evidence)
    refuse (is_unset report.verification)
        (api_error "conflict" "evidence bundle is not yet published")
    read_bundle (bundle_file id)
