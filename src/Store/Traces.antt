-- ===== src/Store/Traces.antt =====
-- How the actions of internal/api/server.go go through the steps of the store.
use harness_trajectory_bench.Prelude.{
  String, ◌≡◌, ◌⊎◌, Bool, false, Option, some, lookup, nat_eq, string_eq, bool_eq, list_eq, pair_eq,
}
use harness_trajectory_bench.Events.Types.{TrackedEvent}
use harness_trajectory_bench.Store.Types.{Run, ApiError}
use harness_trajectory_bench.Store.State.{
  Effect, Store, Reply, done, failed, Action, refuse, call_driver, ◌>>=◌, ◌>>◌,
}
use harness_trajectory_bench.Store.Persist.{replace_state, must_persist, latched}
use harness_trajectory_bench.Store.Append.{Deps, events_of, append_locked, find_run}
use harness_trajectory_bench.Store.Rules.{
  Framed, next_write, refuse-ends, latched-ends, find-ends, persist-ends,
}
use harness_trajectory_bench.Store.Appends.{append-ends}
use harness_trajectory_bench.Store.Steps.{
  Trace, next, waited, appended, saved, broke, torn, called, Ready, answered,
}

-- No condition on the answer of an action.
abbrev pub Any : {L B : Type 0} → B → Store L → Type 0
Any b t = Unit

module _ {L : Type 0} (deps : Deps L) (first : Store L) where
  -- The end of an action: reached by steps, and, if it succeeds, as the condition says.
  abbrev pub Ends : {B : Type 0} → (B → Store L → Type 0) → Reply B × Store L → Type 0
  Ends Q (done b, t) = Trace deps first t × Q b t
  Ends Q (failed e, t) = Trace deps first t

  pub Ends-Trace :
      {B : Type 0} (Q : B → Store L → Type 0) (r : Reply B × Store L)
      → Ends Q r
      → Trace deps first r.1
  Ends-Trace Q (done b, t) h = h.0
  Ends-Trace Q (failed e, t) h = h

  pub forget :
      {B : Type 0} (Q : B → Store L → Type 0) (x : Reply B × Store L) → Ends Q x → Ends Any x
  forget Q (done a, t) (reached, q) = (reached, tt)
  forget Q (failed e, t) reached = reached

  -- The clock, the random source and the disk have moved on.
  pub wait-Trace :
      {s t : Store L}
      → Trace deps first s
      → t.book ≡ s.book
      → t.files ≡ s.files
      → t.world.effects ≡ s.world.effects
      → ((asked : String) → events_of deps asked t ≡ events_of deps asked s)
      → Trace deps first t
  wait-Trace trace b f e l =
      next trace (waited (record { same_book = b; same_files = f; same_effects = e }) l)

  module _ {B : Type 0} (s : Store L) (Q : B → Store L → Type 0) (trace : Trace deps first s) where
    pub refuse-Ends :
        (b : Bool) (error : ApiError) (k : Action L B)
        → (b ≡ false → Ends Q (k s))
        → Ends Q ((refuse b error >> k) s)
    refuse-Ends b error k = refuse-ends s (Ends Q) b error k trace

    pub latched-Ends : (k : Action L B) → Ends Q (k s) → Ends Q ((latched >> k) s)
    latched-Ends k h = latched-ends s (Ends Q) k trace (λ unlatched. h)

    pub find-Ends :
        (id : String) (f : Run → Action L B)
        → ((r : Run) → lookup id s.book.runs ≡ some r → Ends Q (f r s))
        → Ends Q ((find_run id >>= f) s)
    find-Ends id f = find-ends s (Ends Q) id f trace

    pub persist-Ends :
        (operation id : String) (k : Action L B)
        → (s.files.root ≡ "" → Ends Q (k s))
        → (Trace deps first (replace_state id (next_write s))
            → Ends Q (k (replace_state id (next_write s))))
        → Ends Q ((must_persist operation id >> k) s)
    persist-Ends operation id k volatile on_saved =
        persist-ends s (Ends Q) operation id k volatile (λ e stuck. trace)
          (λ named fine w. on_saved (next trace (saved id named fine w)))
          (λ e named fine w. next trace (broke e named fine w))
          (λ e named fine w. next trace (torn id e named fine w))

    pub append-Ends :
        (id : String) (event : TrackedEvent) (f : TrackedEvent → Action L B)
        → ((e : TrackedEvent) (t : Store L) → Framed s t → Trace deps first t → Ends Q (f e t))
        → Ends Q ((append_locked deps id event >>= f) s)
    append-Ends id event f h =
        append-ends deps s (Ends Q) id event f
          (λ error t framed kept. next trace (waited framed kept))
          (λ e t framed longer. h e t framed (next trace (appended id event e framed longer)))

    pub call-Ends :
        (effect : Effect) (f : Option String → Action L B)
        → (s.files.root ≡ "") ⊎ Ready effect s.world.effects
        → ((o : Option String)
            → Trace deps first (answered deps effect s)
            → Ends Q (f o (answered deps effect s)))
        → Ends Q ((call_driver effect >>= f) s)
    call-Ends effect f ready h = h (s.world.driver 0) (next trace (called effect ready))
