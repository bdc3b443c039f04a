-- ===== src/Store/Sessions.antt =====
-- Sessions of the store of internal/api/server.go: its requests, one after the other.
use harness_trajectory_bench.Prelude.{
  String, ◌≡◌, true, some, lookup, nat_eq, string_eq, bool_eq, list_eq, pair_eq,
}
use harness_trajectory_bench.Store.Types.{Run}
use harness_trajectory_bench.Store.State.{Store}
use harness_trajectory_bench.Store.Append.{Deps}
use harness_trajectory_bench.Store.Publish.{is_terminal}
use harness_trajectory_bench.Store.Requests.{Request, handle}
use harness_trajectory_bench.Store.Lifecycle.{
  stay, move, Advanced, stay-Advanced, Advanced-trans, insert-Advanced, insert-fresh-Advanced,
  Walk-is_terminal,
}
use harness_trajectory_bench.Store.Steps.{
  Step, waited, appended, opened, registered, moved, reported, saved, broke, torn, called, cleaned,
  Trace, here, next,
}
use harness_trajectory_bench.Store.Creations.{Fresh}
use harness_trajectory_bench.Store.Handled.{handle-Trace}

module _ {L : Type 0} (deps : Deps L) where
  -- Requests that are served one after the other; the identifier that the random source gives next
  -- is never in use.
  pub data Session (s : Store L) : Store L → Type 0 where
    idle : Session s s
    served :
        {t : Store L}
        → Session s t
        → (request : Request) → Fresh t
        → Session s (handle deps request t).1

  pub Session-Trace : {s t : Store L} → Session s t → Trace deps s t
  Session-Trace idle = here
  Session-Trace {s = s} (served {t = t} session request fresh) =
      handle-Trace deps s t request (Session-Trace session) fresh

  Step-Advanced : {s t : Store L} → Step deps s t → Advanced s.book.runs t.book.runs
  Step-Advanced {s = s} (waited framed kept) = rw framed.same_book (stay-Advanced s.book.runs)
  Step-Advanced {s = s} (appended id event e framed longer) =
      rw framed.same_book (stay-Advanced s.book.runs)
  Step-Advanced {s = s} (opened id log fresh) = stay-Advanced s.book.runs
  Step-Advanced {s = s} (registered r b fresh created same) =
      rw same.runs (insert-fresh-Advanced s.book.runs r.id r fresh)
  Step-Advanced {s = s} (moved id r t b found turned same) = rw same.runs (
      insert-Advanced s.book.runs id r t found (record {
        same_id = turned.same_id;
        same_spec = turned.same_spec;
        same_created = turned.same_created;
        walk = move stay turned.turn;
      }))
  Step-Advanced {s = s} (reported id t b same) = rw same.runs (stay-Advanced s.book.runs)
  Step-Advanced {s = s} (saved id named fine w) = stay-Advanced s.book.runs
  Step-Advanced {s = s} (broke e named fine w) = stay-Advanced s.book.runs
  Step-Advanced {s = s} (torn id e named fine w) = stay-Advanced s.book.runs
  Step-Advanced {s = s} (called effect ready) = stay-Advanced s.book.runs
  Step-Advanced {s = s} (cleaned id) = stay-Advanced s.book.runs

  pub Trace-Advanced : {s t : Store L} → Trace deps s t → Advanced s.book.runs t.book.runs
  Trace-Advanced {s = s} here = stay-Advanced s.book.runs
  Trace-Advanced {s = s} (next {t = t} {u = u} trace step) =
      Advanced-trans s.book.runs t.book.runs u.book.runs (Trace-Advanced trace) (Step-Advanced step)

  -- Over any session, a run of the store stays in the store with its identifier, its spec and
  -- its creation time, and its status only moves along the edges of the state machine: from
  -- created to running or failed, from running to stopping, stopped, completed or failed, and
  -- from stopping back to running or to stopped.
  pub Session-Advanced : (s t : Store L) → Session s t → Advanced s.book.runs t.book.runs
  Session-Advanced s t session = Trace-Advanced (Session-Trace session)

  -- A run that is stopped, completed or failed is still in the store after any session, with the
  -- same status.
  pub terminal_is_final :
      (s t : Store L) (id : String) (r : Run)
      → Session s t
      → lookup id s.book.runs ≡ some r
      → is_terminal r.status ≡ true
      → (u : Run) × (lookup id t.book.runs ≡ some u) × (u.status ≡ r.status)
  terminal_is_final s t id r session found ended =
      let (u, later, m) = Session-Advanced s t session id r found in
      (u, later, Walk-is_terminal ended m.walk)
