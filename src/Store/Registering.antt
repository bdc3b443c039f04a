-- ===== src/Store/Registering.antt =====
-- The registration of a run in internal/api/server.go, and its failure.
use harness_trajectory_bench.Prelude.{
  ◌≢◌, ==_iff, arith, inl, inr, ℤ, ◌+◌, String, ◌≡◌, refl, sym, ap, ◌∙◌, Bool, true, false, Option,
  none, some, ◌!=◌, lookup, lookup-insert_self, nat_eq, string_eq, bool_eq, list_eq, pair_eq,
}
use harness_trajectory_bench.Store.Types.{
  EvidenceReport, zero_report, CreateRunRequest, Run, ApiError, or_else, at_key, zero_run,
}
use harness_trajectory_bench.Store.State.{Book, Store, raise, remember, set_run, set_evidence}
use harness_trajectory_bench.Store.Append.{Deps, execution_error}
use harness_trajectory_bench.Store.Create.{
  create_key, fail_record, fail_reservation, open_log_of, not_collected, failed_reservation,
}
use harness_trajectory_bench.Store.Lifecycle.{edge}
use harness_trajectory_bench.Store.Steps.{
  Noted, Reported, Trace, next, opened, registered, reported, moved, with_book,
}
use harness_trajectory_bench.Store.Traces.{Any, Ends, wait-Trace, persist-Ends}
use harness_trajectory_bench.Store.Turns.{remember-runs, remember-Registered}

pub recorded-verified : ◌≢◌ {A = String} "verification_recorded" "verified"
recorded-verified e =
    absurd (ground (arith, (==_iff {A = String} "verification_recorded" "verified").1 e))

module _ {L : Type 0} (deps : Deps L) (fingerprint : CreateRunRequest → String)
    (first : Store L) where
  fail_record-book :
      (keyed : Bool) (key : String) (r : Run) (e : ApiError) (b : Book)
      → ((fail_record keyed key r e b).runs ≡ b.runs)
        × ((fail_record keyed key r e b).evidence ≡ b.evidence)
  fail_record-book true key r e b = (refl, refl)
  fail_record-book false key r e b = (refl, refl)

  fail_record-Noted :
      (keyed : Bool) (key : String) (r : Run) (e : ApiError) (b : Book)
      → Noted r b (fail_record keyed key r e b)
  fail_record-Noted true key r e b = inr (key, _, refl, refl)
  fail_record-Noted false key r e b = inl refl

  abbrev failed_report : String → String → ℤ → Book → EvidenceReport
  failed_report id message time b = record (at_key zero_report id b.evidence) {
    status = "verification_recorded";
    verification = some (failed_reservation message time);
  }

  -- A failed reservation is reported, and its answer noted.
  fail_record-Reported :
      (keyed : Bool) (key id message : String) (r : Run) (e : ApiError) (time : ℤ) (b : Book)
      → lookup id b.runs ≡ some r
      → Reported id r b
          (fail_record keyed key r e (set_evidence id (failed_report id message time b) b))
  fail_record-Reported keyed key id message r e time b found = record {
    found = found;
    report = failed_report id message time b;
    verification = failed_reservation message time;
    recorded = refl;
    same_run = refl;
    honest = λ h. absurd (recorded-verified h);
    runs = (fail_record-book keyed key r e _).0;
    evidence = (fail_record-book keyed key r e _).1;
    noted = fail_record-Noted keyed key r e _;
  }

  abbrev registration : Run → CreateRunRequest → Book → Book
  registration r req b =
      remember (req.idempotency_key != "") (create_key req)
        (record { run = r; request = fingerprint req; failure = none })
        (set_evidence r.id (not_collected r.id) (set_run r.id r b))

  abbrev pub after : Run → CreateRunRequest → Option L → Store L → Store L
  after r req log s = with_book deps (registration r req s.book) (open_log_of r.id log s).1

  pub register-Trace :
      (s : Store L) (r : Run) (req : CreateRunRequest) (log : Option L)
      → Trace deps first s
      → lookup r.id s.book.runs ≡ none
      → r.status ≡ "created"
      → Trace deps first (after r req log s)
  register-Trace s r req log trace fresh created = next (next trace (opened r.id log fresh)) (
      registered r (registration r req s.book) fresh created
        (remember-Registered (req.idempotency_key != "") _ _ s.book))

  pub registered_run :
      (s : Store L) (r : Run) (req : CreateRunRequest)
      → lookup r.id (registration r req s.book).runs ≡ some r
  registered_run s r req =
      ap (lookup r.id) (remember-runs (req.idempotency_key != "") _ _ _)
      ∙ lookup-insert_self r.id r s.book.runs

  pub fail_reservation-Ends :
      (s : Store L) (r : Run) (req : CreateRunRequest) (message : String)
      → Trace deps first s
      → lookup r.id s.book.runs ≡ some r
      → r.status ≡ "created"
      → Ends deps first Any (fail_reservation fingerprint r req message s)
  unfolding fail_reservation edge
  fail_reservation-Ends s r req message trace found created =
      persist-Ends deps first published Any reported_trace "persist failed run reservation" r.id
        (raise (execution_error "prepare run" message)) (λ volatile. reported_trace)
        (λ saved. saved)
    where
      same : or_else zero_run (lookup r.id s.book.runs) ≡ r
      same = ap (or_else zero_run) found

      failure : Run
      failure = record (or_else zero_run (lookup r.id s.book.runs)) {
        status = "failed";
        updated_at = some (s.world.clock 0);
      }

      turned : Store L
      turned =
          with_book deps (set_run r.id failure s.book)
            (record s { world = record s.world { clock = λ n. s.world.clock (n + 1 + 1) } })

      published : Store L
      published =
          with_book deps
            (fail_record (req.idempotency_key != "") (create_key req) failure
              (execution_error "prepare run" message)
              (set_evidence r.id
                (record (at_key zero_report r.id s.book.evidence) {
                  status = "verification_recorded";
                  verification = some (failed_reservation message (s.world.clock 1));
                })
                (set_run r.id failure s.book)))
            turned

      reported_trace : Trace deps first published
      reported_trace =
          next
            (next (wait-Trace deps first trace refl refl refl (λ asked. refl)) (
              moved r.id (or_else zero_run (lookup r.id s.book.runs)) failure
                (set_run r.id failure s.book) (found ∙ ap some (sym same))
                (record {
                  same_id = refl;
                  same_spec = refl;
                  same_created = refl;
                  turn = rw (same, created) refl;
                })
                (record { runs = refl; evidence = refl; noted = inl refl })))
            (reported r.id failure _ (
              fail_record-Reported (req.idempotency_key != "") _ r.id message failure _ _
                (set_run r.id failure s.book) (lookup-insert_self r.id failure s.book.runs)))
