-- ===== src/Store/TrustedLog.antt =====
-- The trusted appender of internal/trajectory as the event log of a run of internal/api/server.go.
use harness_trajectory_bench.Prelude.{
  ℕ, ◌+◌, String, ◌≡◌, sym, ap, ◌∙◌, some, ◌∷◌, ◌++◌, arith, Result, ok, err, Check, [], nat_eq,
  string_eq, bool_eq, list_eq, pair_eq,
}
use harness_trajectory_bench.Hex.{Sha256}
use harness_trajectory_bench.Events.Types.{TrackedEvent}
use harness_trajectory_bench.Events.Codec.{Codec}
use harness_trajectory_bench.Appender.State.{
  Appender, AppendEnv, SealEnv, append, hash_head, seal, write_marker, check_marker, sync_directory,
}
use harness_trajectory_bench.Appender.Commit.{append-Appended}
use harness_trajectory_bench.Appender.Failure.{append_failure}
use harness_trajectory_bench.Store.Types.{EventLog}

-- An appender, and the answers to come of the clock and the disk.
pub record TrustedLog : Type 0 where
  pub appender : Appender
  pub appends : ℕ → AppendEnv
  pub seals : ℕ → SealEnv

module _ (json : Codec) (hash : Sha256) where
  abbrev pub append_answer :
      TrustedLog → Appender × Result TrackedEvent → TrustedLog × Result TrackedEvent
  append_answer log (later, answer) =
      (record log { appender = later; appends = λ n. log.appends (n + 1) }, answer)

  abbrev pub seal_answer : TrustedLog → Appender × Check → TrustedLog × Check
  seal_answer log (later, answer) =
      (record log { appender = later; seals = λ n. log.seals (n + 1) }, answer)

  pub grows-append :
      (log : TrustedLog) (event : TrackedEvent) (later : TrustedLog) (stored : TrackedEvent)
      → append_answer log (append json hash (log.appends 0) log.appender event) ≡ (later, ok stored)
      → (later.appender.events ≡ log.appender.events ++ stored ∷ [])
        × (stored.event_type ≡ event.event_type)
  grows-append log event later stored h =
      let done = append-Appended json hash (log.appends 0) log.appender event (ap (λ x. x.1) h) in
      (
        ap (λ x. x.0.appender.events) (sym h)
            ∙ done.committed.events
            ∙ ap (λ e. log.appender.events ++ e ∷ []) (sym done.committed.returned),
        ap (λ e. e.event_type) (done.committed.returned ∙ done.encoded.stamped),
      )

  pub keeps-append :
      (log : TrustedLog) (event : TrackedEvent) (later : TrustedLog) (message : String)
      → append_answer log (append json hash (log.appends 0) log.appender event)
        ≡ (later, err message)
      → later.appender.events ≡ log.appender.events
  keeps-append log event later message h =
      let torn = append_failure json hash (log.appends 0) log.appender event (ap (λ x. x.1) h) in
      ap (λ x. x.0.appender.events) (sym h) ∙ ap (λ a. a.events) torn.1

  pub events-seal : (env : SealEnv) (a : Appender) → (seal env a).0.events ≡ a.events
  unfolding seal write_marker check_marker sync_directory
  events-seal env a = ground arith

  -- The trusted appender keeps what the store expects of a log.
  abbrev pub appender_log : EventLog TrustedLog
  appender_log = record {
    append = λ log event. append_answer log (append json hash (log.appends 0) log.appender event);
    snapshot = λ log. log.appender.events;
    seal = λ log. seal_answer log (seal (log.seals 0) log.appender);
    is_sealed = λ log. log.appender.sealed;
    hash_head = λ log. some (hash_head log.appender);
    grows = λ log event {later} {stored} h. grows-append log event later stored h;
    keeps = λ log event {later} {message} h. keeps-append log event later message h;
    seal_keeps = λ log. events-seal (log.seals 0) log.appender;
  }
