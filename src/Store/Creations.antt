-- ===== src/Store/Creations.antt =====
-- `createContext` of internal/api/server.go goes through the steps of the store.
use harness_trajectory_bench.Store.Registering.{
  after, register-Trace, registered_run, fail_reservation-Ends,
}
use harness_trajectory_bench.Prelude.{
  ◌&&◌, ◌+◌, String, ◌≡◌, refl, subst, inl, Bool, true, false, Option, none, some, if◌then◌else◌,
  ◌!=◌, !=-eq-false, lookup, nat_eq, string_eq, bool_eq, list_eq, pair_eq,
}
use harness_trajectory_bench.Store.Types.{CreateRunRequest, Run}
use harness_trajectory_bench.Store.State.{
  prepared, aborted, Store, Reply, done, failed, Action, pure, perform, call_driver, drew, continue,
  ◌>>=◌, ◌>>◌,
}
use harness_trajectory_bench.Store.Persist.{must_persist}
use harness_trajectory_bench.Store.Append.{Deps, prior_run, unless_prior}
use harness_trajectory_bench.Store.Create.{
  bad_spec, create_key, make_log, abort_prepared, register, reserve, create_volatile, reserved,
  create_durable, create_new, create,
}
use harness_trajectory_bench.Store.Rules.{prior-ends, make_log-ends, next_factory}
use harness_trajectory_bench.Store.Steps.{Trace, next, answered, called, cleaned}
use harness_trajectory_bench.Store.Traces.{
  Any, Ends, Ends-Trace, wait-Trace, refuse-Ends, latched-Ends, persist-Ends, call-Ends,
}
use harness_trajectory_bench.Store.Turns.{Recorded, Settled, replace_state-Settled}

-- The next identifier that the random source gives is not in use.
abbrev pub Fresh : {L : Type 0} → Store L → Type 0
Fresh s = (id : String) → s.world.ids 0 ≡ some id → lookup id s.book.runs ≡ none

module _ {L : Type 0} (deps : Deps L) (fingerprint : CreateRunRequest → String)
    (first : Store L) where
  create_volatile-Ends :
      (s : Store L) (r : Run) (req : CreateRunRequest)
      → Trace deps first s
      → lookup r.id s.book.runs ≡ none
      → r.status ≡ "created"
      → s.files.root ≡ ""
      → Ends deps first Any (create_volatile fingerprint r req s)
  unfolding create_volatile
  create_volatile-Ends s r req trace fresh created volatile = reserve_with s.world.has_driver refl
    where
      rest : Action L Run
      rest = make_log (abort_prepared r.id) >>= λ log. register fingerprint r req log >> pure r

      aborted_after :
          (t : Store L)
          → Trace deps first t
          → (b : Bool)
          → Trace deps first
              (if b then perform (aborted r.id) (next_factory t) else (done tt, next_factory t)).1
      aborted_after t reached true =
          next (wait-Trace deps first reached refl refl refl (λ asked. refl)) (cleaned r.id)
      aborted_after t reached false = wait-Trace deps first reached refl refl refl (λ asked. refl)

      logged :
          (t : Store L)
          → Trace deps first t
          → lookup r.id t.book.runs ≡ none
          → Ends deps first Any (rest t)
      logged t reached unused =
          make_log-ends t (Ends deps first Any) (abort_prepared r.id)
            (λ log. register fingerprint r req log >> pure r)
            (register-Trace deps fingerprint first t r req none reached unused created, tt)
            (λ log. (
              register-Trace deps fingerprint first (next_factory t) r req (some log)
                  (wait-Trace deps first reached refl refl refl (λ asked. refl)) unused created,
              tt,
            ))
            (λ e. aborted_after t reached (t.world.has_driver && t.world.can_abort))

      reserve_after :
          (o : Option String)
          → Trace deps first (answered deps (prepared r.id) s)
          → Ends deps first Any ((reserve o >> rest) (answered deps (prepared r.id) s))
      reserve_after none reached = logged (answered deps (prepared r.id) s) reached fresh
      reserve_after (some e) reached = reached

      reserve_with :
          (b : Bool)
          → s.world.has_driver ≡ b
          → Ends deps first Any (
              ((if b then (call_driver (prepared r.id) >>= λ e. reserve e) else pure tt) >> rest) s)
      reserve_with true e =
          reserve_after (s.world.driver 0) (next trace (called (prepared r.id) (inl volatile)))
      reserve_with false e = logged s trace fresh

  create_durable-Ends :
      (s : Store L) (r : Run) (req : CreateRunRequest)
      → Trace deps first s
      → lookup r.id s.book.runs ≡ none
      → r.status ≡ "created"
      → Ends deps first Any (create_durable fingerprint r req s)
  unfolding create_durable
  create_durable-Ends s r req trace fresh created =
      make_log-ends s (Ends deps first Any) (pure tt) after_log (go s none trace fresh)
        (λ log.
          go (next_factory s) (some log)
            (wait-Trace deps first trace refl refl refl (λ asked. refl)) fresh)
        (λ e. wait-Trace deps first trace refl refl refl (λ asked. refl))
    where
      ask : Action L Run
      ask t =
          (if t.world.has_driver
              then (call_driver (prepared r.id) >>= λ e. reserved fingerprint r req e)
              else pure r)
            t

      after_log : Option L → Action L Run
      after_log log =
          register fingerprint r req log >> (must_persist "persist created run" r.id >> ask)

      asked_after :
          (t : Store L)
          → Trace deps first t
          → Settled r.id r t
          → (b : Bool)
          → Ends deps first Any (
              (if b
                  then (call_driver (prepared r.id) >>= λ e. reserved fingerprint r req e)
                  else pure r)
                t)
      asked_after t reached settled false = (reached, tt)
      asked_after t reached settled true =
          call-Ends deps first t Any reached (prepared r.id) (λ e. reserved fingerprint r req e)
            (subst (λ status. Recorded r.id status t) created settled.recorded)
            (λ o later. answer o later)
        where
          answer :
              (o : Option String)
              → Trace deps first (answered deps (prepared r.id) t)
              → Ends deps first Any (reserved fingerprint r req o (answered deps (prepared r.id) t))
          answer none later = (later, tt)
          answer (some e) later =
              fail_reservation-Ends deps fingerprint first (answered deps (prepared r.id) t) r req e
                later settled.held created

      go :
          (t : Store L) (log : Option L)
          → Trace deps first t
          → lookup r.id t.book.runs ≡ none
          → Ends deps first Any (after_log log t)
      go t log reached unused =
          persist-Ends deps first (after deps fingerprint first r req log t) Any
            (register-Trace deps fingerprint first t r req log reached unused created)
            "persist created run" r.id ask
            (λ volatile.
              asked_after (after deps fingerprint first r req log t)
                (register-Trace deps fingerprint first t r req log reached unused created)
                (record {
                  held = registered_run deps fingerprint first t r req;
                  recorded = inl volatile;
                })
                t.world.has_driver)
            (λ saved.
              asked_after _ saved
                (replace_state-Settled r.id r (after deps fingerprint first r req log t)
                  (registered_run deps fingerprint first t r req))
                t.world.has_driver)

  create_new-Ends :
      (s : Store L) (req : CreateRunRequest)
      → Trace deps first s
      → Fresh s
      → Ends deps first Any (create_new fingerprint req s)
  unfolding create_new
  create_new-Ends s req trace fresh = go (s.world.ids 0) refl
    where
      timed : Store L
      timed = record s { world = record s.world { clock = λ n. s.world.clock (n + 1) } }

      drawn : Store L
      drawn = record timed { world = record timed.world { ids = λ n. s.world.ids (n + 1) } }

      drawn_trace : Trace deps first drawn
      drawn_trace = wait-Trace deps first trace refl refl refl (λ asked. refl)

      chosen : String → Run
      chosen id = record {
        id = id;
        spec = req.spec;
        status = "created";
        created_at = some (s.world.clock 0);
        updated_at = some (s.world.clock 0);
      }

      made :
          (id : String)
          → s.world.ids 0 ≡ some id
          → (b : Bool) → (s.files.root != "") ≡ b
          → Ends deps first Any (
              (if b
                  then create_durable fingerprint (chosen id) req
                  else create_volatile fingerprint (chosen id) req)
                drawn)
      made id e true h = create_durable-Ends drawn (chosen id) req drawn_trace (fresh id e) refl
      made id e false h =
          create_volatile-Ends drawn (chosen id) req drawn_trace (fresh id e) refl
            (!=-eq-false s.files.root "" h)

      go :
          (o : Option String)
          → s.world.ids 0 ≡ o
          → Ends deps first Any (
              continue {A = String} {B = Run}
                (λ id t.
                  (if t.files.root != ""
                      then create_durable fingerprint (chosen id) req
                      else create_volatile fingerprint (chosen id) req)
                    t)
                (drew o timed))
      go none e = drawn_trace
      go (some id) e = made id e (s.files.root != "") refl

  pub create-Trace :
      (s : Store L) (req : CreateRunRequest)
      → Trace deps first s
      → Fresh s
      → Trace deps first (create fingerprint req s).1
  unfolding create
  create-Trace s req trace fresh = Ends-Trace deps first Any (create fingerprint req s) (
      refuse-Ends deps first s Any trace (bad_spec req.spec) _ _ λ good.
        latched-Ends deps first s Any trace after_latch (
          prior-ends s (Ends deps first Any) (req.idempotency_key != "") (create_key req)
            (fingerprint req) (create_new fingerprint req) again
            λ new. create_new-Ends s req trace fresh))
    where
      after_latch : Action L Run
      after_latch =
          prior_run (req.idempotency_key != "") (create_key req) (fingerprint req) >>= λ prior.
          unless_prior prior (create_new fingerprint req)

      again : (x : Reply Run) → Ends deps first Any (x, s)
      again (done a) = (trace, tt)
      again (failed e) = trace
