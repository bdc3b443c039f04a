-- ===== src/Store/Ahead.antt =====
-- The order of the writes of internal/api/persistence.go and the calls of the driver.
use harness_trajectory_bench.Prelude.{
  ◌≡◌, refl, sym, ap, ◌∙◌, ◌≢◌, inl, inr, List, ◌∷◌, [], nat_eq, string_eq, bool_eq, list_eq,
  pair_eq,
}
use harness_trajectory_bench.Store.State.{Effect, Store}
use harness_trajectory_bench.Store.Append.{Deps}
use harness_trajectory_bench.Store.Steps.{
  Step, waited, appended, opened, registered, moved, reported, saved, broke, torn, called, cleaned,
  Trace, here, next, Ready,
}
use harness_trajectory_bench.Store.Sessions.{Session, Session-Trace}

-- Before each call of the driver, the state on disk said what the driver was asked for.
abbrev pub WrittenAhead : List Effect → Type 0
WrittenAhead [] = Unit
WrittenAhead (effect ∷ before) = Ready effect before × WrittenAhead before

module _ {L : Type 0} (deps : Deps L) where
  Step-root : {s t : Store L} → Step deps s t → t.files.root ≡ s.files.root
  Step-root (waited framed kept) = ap (λ f. f.root) framed.same_files
  Step-root (appended id event e framed longer) = ap (λ f. f.root) framed.same_files
  Step-root (opened id log fresh) = refl
  Step-root (registered r b fresh created same) = refl
  Step-root (moved id r t b found turned same) = refl
  Step-root (reported id t b same) = refl
  Step-root (saved id named fine w) = refl
  Step-root (broke e named fine w) = refl
  Step-root (torn id e named fine w) = refl
  Step-root (called effect ready) = refl
  Step-root (cleaned id) = refl

  pub Trace-root : {s t : Store L} → Trace deps s t → t.files.root ≡ s.files.root
  Trace-root here = refl
  Trace-root (next trace step) = Step-root step ∙ Trace-root trace

  Step-WrittenAhead :
      {s t : Store L}
      → Step deps s t
      → s.files.root ≢ ""
      → WrittenAhead s.world.effects
      → WrittenAhead t.world.effects
  Step-WrittenAhead (waited framed kept) named h = rw framed.same_effects h
  Step-WrittenAhead (appended id event e framed longer) named h = rw framed.same_effects h
  Step-WrittenAhead (opened id log fresh) named h = h
  Step-WrittenAhead (registered r b fresh created same) named h = h
  Step-WrittenAhead (moved id r t b found turned same) named h = h
  Step-WrittenAhead (reported id t b same) named h = h
  Step-WrittenAhead (saved id named_ fine w) named h = (tt, h)
  Step-WrittenAhead (broke e named_ fine w) named h = h
  Step-WrittenAhead (torn id e named_ fine w) named h = (tt, h)
  Step-WrittenAhead (called effect (inl volatile)) named h = absurd (named volatile)
  Step-WrittenAhead (called effect (inr ready)) named h = (ready, h)
  Step-WrittenAhead (cleaned id) named h = (tt, h)

  Trace-WrittenAhead :
      {s t : Store L}
      → Trace deps s t
      → s.files.root ≢ ""
      → WrittenAhead s.world.effects
      → WrittenAhead t.world.effects
  Trace-WrittenAhead here named h = h
  Trace-WrittenAhead (next trace step) named h =
      Step-WrittenAhead step (λ e. named (sym (Trace-root trace) ∙ e))
        (Trace-WrittenAhead trace named h)

  -- In a store with a persistence root, if each call of the driver so far came after its write,
  -- then so does each call in any session: when the driver is asked to prepare, start or stop a
  -- run, the state that was written last for that run says created, running or stopping.
  pub Session-WrittenAhead :
      (s t : Store L)
      → Session deps s t
      → s.files.root ≢ ""
      → WrittenAhead s.world.effects
      → WrittenAhead t.world.effects
  Session-WrittenAhead s t session = Trace-WrittenAhead (Session-Trace deps session)
