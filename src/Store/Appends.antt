-- ===== src/Store/Appends.antt =====
-- What `appendLocked` of internal/api/server.go changes.
use harness_trajectory_bench.Prelude.{
  ◌+◌, String, ◌≡◌, refl, sym, ap, ◌∙◌, subst, inl, inr, Bool, true, false, not, Option, none, some,
  List, ◌∷◌, ◌++◌, if◌then◌else◌, ◌==◌, ◌!=◌, ==_iff, Bool-cases, length, Result, ok, err, Check,
  lookup, insert, lookup-insert, uint64, [], nat_eq, string_eq, bool_eq, list_eq, pair_eq,
}
use mathlib.Core.List.{append-nil}
use harness_trajectory_bench.Events.Types.{TrackedEvent}
use harness_trajectory_bench.Events.Validate.{validate_event}
use harness_trajectory_bench.Appender.State.{is_zero}
use harness_trajectory_bench.Store.Types.{ApiError, at_key}
use harness_trajectory_bench.Store.State.{Store, Reply, done, failed, Action, refuse, ◌>>=◌, ◌>>◌}
use harness_trajectory_bench.Store.Append.{
  Deps, append_locked, append_to, append_in_memory, keep_event, logged, held_in_memory, events_of,
  put_log, unix_milli, api_error,
}
use harness_trajectory_bench.Store.Rules.{Framed, bind-ends}

pub nothing_added : (xs : List TrackedEvent) (b : Bool) → xs ++ (if b then [] else []) ≡ xs
nothing_added xs true = append-nil xs
nothing_added xs false = append-nil xs

module _ {L : Type 0} (deps : Deps L) where
  -- The events of every run before and after an append to the log of one.
  abbrev pub Extended : String → TrackedEvent → Reply TrackedEvent → Store L → Store L → Type 0
  Extended id event (done e) s t =
      (e.event_type ≡ event.event_type)
      × ((asked : String)
          → events_of deps asked t ≡ events_of deps asked s ++ (if id == asked then e ∷ [] else []))
  Extended id event (failed e) s t =
      (asked : String) → events_of deps asked t ≡ events_of deps asked s

  pub record Change (id : String) (event : TrackedEvent) (s : Store L)
      (r : Reply TrackedEvent × Store L) : Type 0 where
    pub framed : Framed s r.1
    pub extended : Extended id event r.0 s r.1

  by_parts :
      {s t : Store L}
      → t.book ≡ s.book
      → t.files ≡ s.files
      → t.world.effects ≡ s.world.effects
      → Framed s t
  by_parts b f e = record { same_book = b; same_files = f; same_effects = e }

  refused-Change :
      (id : String) (event : TrackedEvent) (s : Store L) (e : ApiError)
      → Change id event s (failed e, s)
  refused-Change id event s e = record {
    framed = by_parts refl refl refl;
    extended = λ asked. refl;
  }

  -- Once the log of a run holds more, so do the events of that run, and of no other.
  pub events_of-put_log :
      (id : String) (s : Store L) (log later : L) (more : List TrackedEvent)
      → lookup id s.logs.event_logs ≡ some log
      → deps.log.snapshot later ≡ deps.log.snapshot log ++ more
      → (asked : String)
      → events_of deps asked (put_log deps id later s)
        ≡ events_of deps asked s ++ (if id == asked then more else [])
  events_of-put_log id s log later more found longer asked = elim (Bool-cases (id == asked)) [
    | inl e ↦
        let there : lookup asked s.logs.event_logs ≡ some log =
          subst (λ k. lookup k s.logs.event_logs ≡ some log) ((==_iff id asked).0 e) found in
        simp (lookup-insert, e, there, longer)
    | inr e ↦ simp (lookup-insert, e, append-nil)
  ]

  logged-Change :
      (id : String) (event : TrackedEvent) (s : Store L) (log : L)
      → lookup id s.logs.event_logs ≡ some log
      → (r : L × Result TrackedEvent) → deps.log.append log event ≡ r
      → Change id event s (logged deps id s r)
  logged-Change id event s log found (later, ok e) h =
      let grown = deps.log.grows log event h in
      record {
        framed = by_parts refl refl refl;
        extended = (grown.1, events_of-put_log id s log later (e ∷ []) found grown.0);
      }
  logged-Change id event s log found (later, err m) h =
      let kept = deps.log.keeps log event h ∙ sym (append-nil (deps.log.snapshot log)) in
      record {
        framed = by_parts refl refl refl;
        extended = λ asked.
            rw (events_of-put_log id s log later [] found kept asked)
              (nothing_added (events_of deps asked s) (id == asked));
      }

  abbrev hold : String → TrackedEvent → Store L → Store L
  hold id e s = record s {
    logs = record s.logs { events = insert id (held_in_memory deps id s ++ e ∷ []) s.logs.events };
  }

  events_of-hold :
      (id : String) (s : Store L) (e : TrackedEvent)
      → lookup id s.logs.event_logs ≡ none
      → (asked : String)
      → events_of deps asked (hold id e s)
        ≡ events_of deps asked s ++ (if id == asked then e ∷ [] else [])
  events_of-hold id s e unlogged asked = elim (Bool-cases (id == asked)) [
    | inl h ↦
        let same = (==_iff id asked).0 h in
        let there : lookup asked s.logs.event_logs ≡ none =
          subst (λ k. lookup k s.logs.event_logs ≡ none) same unlogged in
        simp (lookup-insert, h, there, ap (λ k. at_key [] k s.logs.events) same)
    | inr h ↦ simp (lookup-insert, h, append-nil)
  ]

  kept-Change :
      (id : String) (event : TrackedEvent) (s : Store L)
      → lookup id s.logs.event_logs ≡ none
      → Change id event s (append_in_memory deps id event s)
  unfolding append_in_memory
  kept-Change id event s unlogged = go (validate_event deps.json deps.hash stamped)
    where
      later : Store L
      later = record s { world = record s.world { clock = λ n. s.world.clock (n + 1) } }

      stamped : TrackedEvent
      stamped = record event {
        seq = uint64 (length (held_in_memory deps id s) + 1);
        time = unix_milli (s.world.clock 0);
      }

      go : (c : Check) → Change id event s (keep_event deps id stamped c later)
      go (ok valid) = record {
        framed = by_parts refl refl refl;
        extended = (refl, events_of-hold id later stamped unlogged);
      }
      go (err m) = record { framed = by_parts refl refl refl; extended = λ asked. refl }

  pub append_locked-Change :
      (id : String) (event : TrackedEvent) (s : Store L)
      → Change id event s (append_locked deps id event s)
  unfolding append_locked
  append_locked-Change id event s = go (event.seq != 0) (not (is_zero event.time))
    where
      appended :
          (o : Option L)
          → lookup id s.logs.event_logs ≡ o
          → Change id event s (append_to deps o id event s)
      appended (some log) found =
          logged-Change id event s log found (deps.log.append log event) refl
      appended none unlogged = kept-Change id event s unlogged

      go :
          (b c : Bool)
          → Change id event s (
              (refuse b
                    (api_error "validation" "event seq is assigned only by the trusted appender")
                  >> (refuse c (
                        api_error "validation"
                          "event time is assigned only by the trusted appender")
                      >> append_to deps (lookup id s.logs.event_logs) id event))
                s)
      go true c = refused-Change id event s _
      go false true = refused-Change id event s _
      go false false = appended (lookup id s.logs.event_logs) refl

  -- The rule for an append: an error leaves all but the clock as it was.
  pub append-ends :
      {B : Type 0} (s : Store L) (P : Reply B × Store L → Type 0) (id : String)
      (event : TrackedEvent) (f : TrackedEvent → Action L B)
      → ((error : ApiError) (t : Store L)
          → Framed s t
          → ((asked : String) → events_of deps asked t ≡ events_of deps asked s)
          → P (failed error, t))
      → ((e : TrackedEvent) (t : Store L) → Framed s t → Extended id event (done e) s t → P (f e t))
      → P ((append_locked deps id event >>= f) s)
  append-ends s P id event f refused appended =
      bind-ends (append_locked deps id event) f s P
        (λ e t h.
          let c = subst (Change id event s) h (append_locked-Change id event s) in
          appended e t c.framed c.extended)
        (λ e t h.
          let c = subst (Change id event s) h (append_locked-Change id event s) in
          refused e t c.framed c.extended)
