-- ===== src/Store/History.antt =====
-- The events of a run of internal/api/server.go over a session.
use mathlib.Core.List.{append_assoc, append-nil}
use harness_trajectory_bench.Prelude.{
  String, ◌≡◌, sym, ◌∙◌, inl, inr, false, Option, none, some, List, ◌∷◌, ◌++◌, arith, if◌then◌else◌,
  ◌==◌, ==_iff, Bool-cases, lookup, lookup-insert, [], nat_eq, string_eq, bool_eq, list_eq, pair_eq,
}
use harness_trajectory_bench.Events.Types.{TrackedEvent}
use harness_trajectory_bench.Store.Types.{Run}
use harness_trajectory_bench.Store.State.{Store}
use harness_trajectory_bench.Store.Append.{Deps, events_of}
use harness_trajectory_bench.Store.Create.{open_log_of}
use harness_trajectory_bench.Store.Steps.{
  Step, waited, appended, opened, registered, moved, reported, saved, broke, torn, called, cleaned,
  Trace, here, next,
}
use harness_trajectory_bench.Store.Sessions.{Session, Session-Trace, Trace-Advanced}

module _ {L : Type 0} (deps : Deps L) where
  abbrev pub Longer : String → Store L → Store L → Type 0
  Longer id s t = (more : List TrackedEvent) × (events_of deps id t ≡ events_of deps id s ++ more)

  same-Longer : (id : String) (s : Store L) → Longer id s s
  same-Longer id s = ([], sym (append-nil (events_of deps id s)))

  Longer-trans : (id : String) (s t u : Store L) → Longer id s t → Longer id t u → Longer id s u
  Longer-trans id s t u (more, e) (again, f) =
      (more ++ again, rw (f, e) (append_assoc (events_of deps id s) more again))

  opened-Longer :
      (id : String) (log : Option L) (s : Store L) (asked : String) (r : Run)
      → lookup id s.book.runs ≡ none
      → lookup asked s.book.runs ≡ some r
      → Longer asked s (open_log_of id log s).1
  opened-Longer id log s asked r fresh found = elim (Bool-cases (id == asked)) [
    | inl e ↦ let same = (==_iff id asked).0 e in absurd (ground (arith, fresh, found, same))
    | inr e ↦ ([], go log e)
  ]
    where
      go :
          (o : Option L)
          → (id == asked) ≡ false
          → events_of deps asked (open_log_of id o s).1 ≡ events_of deps asked s ++ []
      go none e = simp (lookup-insert, e, append-nil)
      go (some made) e = simp (lookup-insert, e, append-nil)

  Step-Longer :
      {s t : Store L} (asked : String) (r : Run)
      → Step deps s t
      → lookup asked s.book.runs ≡ some r
      → Longer asked s t
  Step-Longer {s = s} asked r (waited framed kept) found =
      ([], kept asked ∙ sym (append-nil (events_of deps asked s)))
  Step-Longer {s = s} asked r (appended id event e framed longer) found =
      (if id == asked then e ∷ [] else [], longer.1 asked)
  Step-Longer {s = s} asked r (opened id log fresh) found =
      opened-Longer id log s asked r fresh found
  Step-Longer {s = s} asked r (registered made b fresh created same) found = same-Longer asked s
  Step-Longer {s = s} asked r (moved id old new b kept turned same) found = same-Longer asked s
  Step-Longer {s = s} asked r (reported id t b same) found = same-Longer asked s
  Step-Longer {s = s} asked r (saved id named fine w) found = same-Longer asked s
  Step-Longer {s = s} asked r (broke e named fine w) found = same-Longer asked s
  Step-Longer {s = s} asked r (torn id e named fine w) found = same-Longer asked s
  Step-Longer {s = s} asked r (called effect ready) found = same-Longer asked s
  Step-Longer {s = s} asked r (cleaned id) found = same-Longer asked s

  Trace-Longer :
      {s t : Store L} (asked : String) (r : Run)
      → Trace deps s t
      → lookup asked s.book.runs ≡ some r
      → Longer asked s t
  Trace-Longer {s = s} asked r here found = same-Longer asked s
  Trace-Longer {s = s} asked r (next {t = t} {u = u} trace step) found =
      let (later, kept, m) = Trace-Advanced deps trace asked r found in
      Longer-trans asked s t u (Trace-Longer asked r trace found)
        (Step-Longer asked later step kept)

  -- Over any session, the events of a run of the store only grow at the end, in memory as behind
  -- a trusted log.
  pub Session-Longer :
      (s t : Store L) (id : String) (r : Run)
      → Session deps s t
      → lookup id s.book.runs ≡ some r
      → (more : List TrackedEvent) × (events_of deps id t ≡ events_of deps id s ++ more)
  Session-Longer s t id r session = Trace-Longer id r (Session-Trace deps session)
