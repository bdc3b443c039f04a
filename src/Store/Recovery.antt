-- ===== src/Store/Recovery.antt =====
-- `recoverPersistedRuns` of internal/api/persistence.go.
use harness_trajectory_bench.Prelude.{
  String, Bool, true, false, ◌&&◌, ◌||◌, not, Option, none, some, List, ◌∷◌, ◌==◌, ok, err, Check,
  lookup, ℤ, [], nat_eq, string_eq, bool_eq, list_eq, pair_eq,
}
use harness_trajectory_bench.Events.Types.{TrackedEvent}
use harness_trajectory_bench.Store.Types.{VerificationResult, at_key, zero_run, zero_report}
use harness_trajectory_bench.Store.State.{
  Book, Store, Reply, done, failed, Action, pure, raise, gets, now, modify_book, set_run,
  set_evidence, ◌>>◌, ◌>>=◌,
}
use harness_trajectory_bench.Store.Persist.{persist, with_context}
use harness_trajectory_bench.Store.Append.{Deps, api_error, append_locked, lifecycle_event, put_log}
use harness_trajectory_bench.Store.Mutate.{with_status}
use harness_trajectory_bench.Store.Publish.{is_terminal, is_unset}

abbrev pub has_finish : List TrackedEvent → Bool
has_finish [] = false
has_finish (e ∷ rest) = (e.event_type == "run/finish") || has_finish rest

abbrev pub interrupted : ℤ → VerificationResult
interrupted t = record {
  status = "interrupted";
  eligible = false;
  summary = "control plane restarted before evidence finalization";
  checked_at = some t;
  tracked_event_chain_head = "";
  event_count = 0;
}

abbrev pub keys {ℓ} : {V : Type ℓ} → List (String × V) → List String
keys [] = []
keys ((key, value) ∷ rest) = key ∷ keys rest

abbrev pub mark_interrupted : String → ℤ → Book → Book
mark_interrupted id t b =
    set_evidence id
      (record (at_key zero_report id b.evidence) {
        run_id = id;
        status = "verification_recorded";
        verification = some (interrupted t);
      })
      (set_run id (with_status (at_key zero_run id b.runs) "failed" t) b)

abbrev pub fail_plainly : {L : Type 0} → Option String → Action L (Unit {0})
fail_plainly none = pure tt
fail_plainly (some e) = raise (api_error "internal" e)

module _ {L : Type 0} (deps : Deps L) where
  abbrev pub sealed_or : Option L → Bool
  sealed_or none = false
  sealed_or (some log) = deps.log.is_sealed log

  abbrev pub logged_events : Option L → List TrackedEvent
  logged_events none = []
  logged_events (some log) = deps.log.snapshot log

  -- A run that ended, was sealed and has a verification is left as it is.
  abbrev pub is_settled : String → Store L → Bool
  is_settled id s =
      is_terminal (at_key zero_run id s.book.runs).status
      && sealed_or (lookup id s.logs.event_logs)
      && not (is_unset (at_key zero_report id s.book.evidence).verification)

  abbrev pub finish_once : String → Bool → Action L (Unit {0})
  finish_once id true = pure tt
  finish_once id false = do
    stored ← append_locked deps id (lifecycle_event deps "run/finish" "interrupted" "failed")
    pure tt

  abbrev pub sealed_recovered : String → Store L → L × Check → Reply (Unit {0}) × Store L
  sealed_recovered id s (log, ok sealed) = (done tt, put_log deps id log s)
  sealed_recovered id s (log, err m) =
      (failed (api_error "internal" (with_context "seal recovered run" m)), put_log deps id log s)

  abbrev pub seal_recovered : String → Option L → Action L (Unit {0})
  seal_recovered id none s = (done tt, s)
  seal_recovered id (some log) s = sealed_recovered id s (deps.log.seal log)

  unfoldable pub recover_interrupted : ℤ → String → Action L (Unit {0})
  recover_interrupted t id = do
    finished ← gets (λ s. has_finish (logged_events (lookup id s.logs.event_logs)))
    finish_once id finished
    modify_book (mark_interrupted id t)
    log ← gets (λ s. lookup id s.logs.event_logs)
    seal_recovered id log
    e ← persist id
    fail_plainly e

  abbrev pub recover_unless : Bool → ℤ → String → Action L (Unit {0})
  recover_unless true t id s = (done tt, s)
  recover_unless false t id s = recover_interrupted t id s

  unfoldable pub recover_run : ℤ → String → Action L (Unit {0})
  recover_run t id s = recover_unless (is_settled id s) t id s

  unfoldable pub recover_all : ℤ → List String → Action L (Unit {0})
  recover_all t [] s = (done tt, s)
  recover_all t (id ∷ rest) s = (recover_run t id >> recover_all t rest) s

  -- `recoverPersistedRuns`
  unfoldable pub recover_persisted_runs : Action L (Unit {0})
  recover_persisted_runs = do t ← now; ids ← gets (λ s. keys s.book.runs); recover_all t ids
