-- ===== src/Store/Handled.antt =====
-- The other methods of internal/api/server.go go through the steps of the store, and so all do.
use harness_trajectory_bench.Prelude.{
  ◌+◌, String, ◌≡◌, refl, sym, ◌∙◌, subst, inl, inr, Bool, true, false, ◌&&◌, not, Option, none,
  some, arith, if◌then◌else◌, ◌==◌, ◌!=◌, ==_iff, Bool-cases, ok, err, Check, !=-eq-false, lookup,
  Timestamp, is_zero_time, [], nat_eq, string_eq, bool_eq, list_eq, pair_eq,
}
use mathlib.Core.List.{append-nil}
use harness_trajectory_bench.Events.Types.{TrackedEvent}
use harness_trajectory_bench.Store.Types.{Run, VerificationResult, at_key, zero_report}
use harness_trajectory_bench.Store.State.{
  Book, Store, Reply, done, failed, Action, pure, refuse, now, modify_book, set_run, set_evidence,
  continue, ◌>>=◌, ◌>>◌,
}
use harness_trajectory_bench.Store.Persist.{must_persist}
use harness_trajectory_bench.Store.Append.{
  Deps, append_locked, find_run, api_error, events_of, put_log, api_error,
}
use harness_trajectory_bench.Store.Mutate.{with_status, mutate}
use harness_trajectory_bench.Store.Create.{create}
use harness_trajectory_bench.Store.Publish.{
  is_terminal, completion_status, finish_run, complete_run, complete, append_event, sealed_log,
  seal_log, seal_run, checked_time, recorded_status, set_evidence_verification,
}
use harness_trajectory_bench.Store.Requests.{
  Request, creation, mutation, completion, appending, publication, sealing, outcome, handle,
}
use harness_trajectory_bench.Store.Appends.{
  Change, append_locked-Change, events_of-put_log, nothing_added,
}
use harness_trajectory_bench.Store.Lifecycle.{edge}
use harness_trajectory_bench.Store.Steps.{
  Reported, Trace, next, waited, appended, reported, with_book,
}
use harness_trajectory_bench.Store.Registering.{recorded-verified}
use harness_trajectory_bench.Store.Traces.{
  Any, Ends, Ends-Trace, wait-Trace, refuse-Ends, latched-Ends, find-Ends, persist-Ends,
  append-Ends,
}
use harness_trajectory_bench.Store.Turns.{turn-Ends}
use harness_trajectory_bench.Store.Mutations.{mutate-Trace}
use harness_trajectory_bench.Store.Creations.{Fresh, create-Trace}

module _ {L : Type 0} (deps : Deps L) (first : Store L) where
  completion-edge :
      (r : Run) (status : String)
      → ((status != "completed") && (status != "failed")) ≡ false
      → ((r.status != "running") && (r.status != "stopping")) ≡ false
      → edge r.status (completion_status r status) ≡ true
  unfolding edge
  completion-edge r status known active = elim (Bool-cases (r.status == "stopping")) [
    | inl e ↦ rw ((==_iff r.status "stopping").0 e) refl
    | inr e ↦
        let f : r.status ≡ "running" = !=-eq-false r.status "running" (ground arith) in
        elim (Bool-cases (status == "completed")) [
          | inl c ↦ rw (f, (==_iff status "completed").0 c) refl
          | inr c ↦ rw (f, !=-eq-false status "failed" (ground arith)) refl
        ]
  ]

  complete-Trace :
      (s : Store L) (id status reason : String)
      → Trace deps first s
      → Trace deps first (complete deps id status reason s).1
  unfolding complete finish_run
  complete-Trace s id status reason trace =
      Ends-Trace deps first Any (complete deps id status reason s) (
        refuse-Ends deps first s Any trace ((status != "completed") && (status != "failed")) _ _
          λ known.
            latched-Ends deps first s Any trace
              (find_run id >>= λ r. complete_run deps id r status reason)
              (find-Ends deps first s Any trace id (λ r. complete_run deps id r status reason)
                λ r found. ended r found known (is_terminal r.status)))
    where
      act : Run → Action L Run
      act r = finish_run deps id r (completion_status r status) reason

      ended :
          (r : Run)
          → lookup id s.book.runs ≡ some r
          → ((status != "completed") && (status != "failed")) ≡ false
          → (b : Bool)
          → Ends deps first Any (
              if b
              then pure r s
              else (refuse
                      ((r.status != "running") && (r.status != "stopping"))
                      (api_error "conflict" "only running runs can complete")
                    >> act r)
                  s)
      ended r found known true = (trace, tt)
      ended r found known false =
          refuse-Ends deps first s Any trace ((r.status != "running") && (r.status != "stopping")) _
            (act r)
            λ active. append-Ends deps first s Any trace id _ _ λ e t framed reached.
              turn-Ends deps first t Any reached id r (completion_status r status)
                "persist run completion"
                (λ time b. set_run id (with_status r (completion_status r status) time) b)
                (λ time. pure (with_status r (completion_status r status) time))
                (rw framed.same_book found) (completion-edge r status known active)
                (λ time b. record { runs = refl; evidence = refl; noted = inl refl })
                (λ time u arrived same settled. (arrived, tt))

  append_event-Trace :
      (s : Store L) (id : String) (event : TrackedEvent)
      → Trace deps first s
      → Trace deps first (append_event deps id event s).1
  unfolding append_event
  append_event-Trace s id event trace = Ends-Trace deps first Any (append_event deps id event s) (
      latched-Ends deps first s Any trace (find_run id >>= λ r. append_locked deps id event) (
        find-Ends deps first s Any trace id (λ r. append_locked deps id event)
          λ r found. go (append_locked deps id event s) (append_locked-Change deps id event s)))
    where
      go : (x : Reply TrackedEvent × Store L) → Change deps id event s x → Ends deps first Any x
      go (done e, t) c = (next trace (appended id event e c.framed c.extended), tt)
      go (failed e, t) c = next trace (waited c.framed c.extended)

  seal_run-Trace :
      (s : Store L) (id : String) → Trace deps first s → Trace deps first (seal_run deps id s).1
  unfolding seal_run
  seal_run-Trace s id trace = Ends-Trace deps first Any (seal_run deps id s) (
      find-Ends deps first s Any trace id after_find λ r found.
        refuse-Ends deps first s Any trace (not (is_terminal r.status)) _ sealed
          λ ended. go (lookup id s.logs.event_logs) refl)
    where
      sealed : Action L (Unit {0})
      sealed t = seal_log deps id (lookup id t.logs.event_logs) t

      after_find : Run → Action L (Unit {0})
      after_find r =
          refuse (not (is_terminal r.status))
            (api_error "conflict" "only terminal runs can be sealed")
          >> sealed

      resealed :
          (log later : L)
          → lookup id s.logs.event_logs ≡ some log
          → deps.log.snapshot later ≡ deps.log.snapshot log
          → Trace deps first (put_log deps id later s)
      resealed log later found same = wait-Trace deps first trace refl refl refl λ asked.
          events_of-put_log deps id s log later [] found
            (same ∙ sym (append-nil (deps.log.snapshot log))) asked
          ∙ nothing_added (events_of deps asked s) (id == asked)

      sealing_ends :
          (log : L)
          → lookup id s.logs.event_logs ≡ some log
          → (x : L × Check) → deps.log.snapshot x.0 ≡ deps.log.snapshot log
          → Ends deps first Any (sealed_log deps id s x)
      sealing_ends log found (later, ok done_) same = (resealed log later found same, tt)
      sealing_ends log found (later, err m) same = resealed log later found same

      go :
          (o : Option L)
          → lookup id s.logs.event_logs ≡ o
          → Ends deps first Any (seal_log deps id o s)
      go none e = (trace, tt)
      go (some log) e = sealing_ends log e (deps.log.seal log) (deps.log.seal_keeps log)

  abbrev publication_of : String → VerificationResult → Timestamp → Book → Book
  publication_of id v time b =
      set_evidence id
        (record (at_key zero_report id b.evidence) {
          verification = some (record v { checked_at = time });
          status = recorded_status v;
        })
        b

  publication-Reported :
      (id : String) (v : VerificationResult) (time : Timestamp) (r : Run) (b : Book)
      → lookup id b.runs ≡ some r
      → Reported id r b (publication_of id v time b)
  publication-Reported id v time r b found = record {
    found = found;
    report = record (at_key zero_report id b.evidence) {
      verification = some (record v { checked_at = time });
      status = recorded_status v;
    };
    verification = record v { checked_at = time };
    recorded = refl;
    same_run = refl;
    honest = honest_status (v.status == "verified") refl v.eligible refl;
    runs = refl;
    evidence = refl;
    noted = inl refl;
  }
    where
      honest_status :
          (a : Bool)
          → (v.status == "verified") ≡ a
          → (c : Bool) → v.eligible ≡ c
          → ◌≡◌ {A = String} (if a && c then "verified" else "verification_recorded") "verified"
          → (v.status ≡ "verified") × (v.eligible ≡ true)
      honest_status true e true f h = ((==_iff v.status "verified").0 e, f)
      honest_status true e false f h = absurd (recorded-verified h)
      honest_status false e c f h = absurd (recorded-verified h)

  then_nothing : (x : Reply (Unit {0}) × Store L) → continue (λ done_. pure tt) x ≡ x
  then_nothing (done a, t) = refl
  then_nothing (failed e, t) = refl

  publish-Trace :
      (s : Store L) (id : String) (v : VerificationResult)
      → Trace deps first s
      → Trace deps first (set_evidence_verification id v s).1
  unfolding set_evidence_verification
  publish-Trace s id v trace = Ends-Trace deps first Any (set_evidence_verification id v s) (
      latched-Ends deps first s Any trace (find_run id >>= λ r. after_find) (
        find-Ends deps first s Any trace id (λ r. after_find)
          λ r found.
            refuse-Ends deps first s Any trace (v.status == "") _
              (checked_time v.checked_at >>= recording)
              λ named. go r found (is_zero_time v.checked_at)))
    where
      recording : Timestamp → Action L (Unit {0})
      recording time =
          modify_book (publication_of id v time) >> must_persist "persist evidence publication" id

      after_find : Action L (Unit {0})
      after_find =
          refuse (v.status == "") (api_error "validation" "verification status is required")
          >> (checked_time v.checked_at >>= recording)

      recorded :
          (t : Store L) (time : Timestamp) (r : Run)
          → lookup id t.book.runs ≡ some r
          → Trace deps first t
          → Ends deps first Any (recording time t)
      recorded t time r found reached = subst (Ends deps first Any) (then_nothing _) (
          persist-Ends deps first (with_book deps (publication_of id v time t.book) t) Any
            (next reached (reported id r _ (publication-Reported id v time r t.book found)))
            "persist evidence publication" id (pure tt)
            (λ volatile.
              (next reached (reported id r _ (publication-Reported id v time r t.book found)), tt))
            (λ saved. (saved, tt)))

      go :
          (r : Run)
          → lookup id s.book.runs ≡ some r
          → (b : Bool)
          → Ends deps first Any (
              ((λ u. if b then (now >>= λ time. pure (some time)) u else (done v.checked_at, u))
                  >>= recording)
                s)
      go r found true =
          recorded (record s { world = record s.world { clock = λ n. s.world.clock (n + 1) } })
            (some (s.world.clock 0)) r found
            (wait-Trace deps first trace refl refl refl (λ asked. refl))
      go r found false = recorded s v.checked_at r found trace

  settled :
      {B : Type 0} (x : Reply B × Store L) → Trace deps first x.1 → Trace deps first (outcome x).1
  settled (done b, t) trace = trace
  settled (failed e, t) trace = trace

  pub handle-Trace :
      (s : Store L) (request : Request)
      → Trace deps first s
      → Fresh s
      → Trace deps first (handle deps request s).1
  unfolding handle
  handle-Trace s (creation req) trace fresh =
      settled (create deps.create_print req s)
        (create-Trace deps deps.create_print first s req trace fresh)
  handle-Trace s (mutation id m) trace fresh =
      settled (mutate deps deps.mutation_print id m s)
        (mutate-Trace deps deps.mutation_print first s id m trace)
  handle-Trace s (completion id status reason) trace fresh =
      settled (complete deps id status reason s) (complete-Trace s id status reason trace)
  handle-Trace s (appending id event) trace fresh =
      settled (append_event deps id event s) (append_event-Trace s id event trace)
  handle-Trace s (publication id v) trace fresh =
      settled (set_evidence_verification id v s) (publish-Trace s id v trace)
  handle-Trace s (sealing id) trace fresh = settled (seal_run deps id s) (seal_run-Trace s id trace)
