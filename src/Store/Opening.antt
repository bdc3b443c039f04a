-- ===== src/Store/Opening.antt =====
-- `OpenStore` of internal/api/persistence.go.
use harness_trajectory_bench.Prelude.{
  String, Option, none, some, List, ◌==◌, Result, ok, err, reject, [], nat_eq, string_eq, bool_eq,
  list_eq, pair_eq, ◌>>=◌, ◌>>◌,
}
use harness_trajectory_bench.Store.Types.{PersistedRun}
use harness_trajectory_bench.Store.State.{World, Store, Reply, done, failed}
use harness_trajectory_bench.Store.Append.{Deps}
use harness_trajectory_bench.Store.Catalog.{CatalogEntry, load_entries}
use harness_trajectory_bench.Store.Recovery.{recover_persisted_runs}

module _ {L : Type 0} (deps : Deps L) where
  -- `NewStoreWithDependencies`, with a root.
  abbrev pub new_store : String → List (String × PersistedRun) → World L → Store L
  new_store root disk world = record {
    book = record { runs = []; evidence = []; idempotency = [] };
    logs = record { events = []; event_logs = [] };
    files = record { root = root; persist_error = none; disk = disk };
    world = world;
  }

  abbrev pub recovered_store : Reply (Unit {0}) × Store L → Result (Store L)
  recovered_store (done a, s) = ok s
  recovered_store (failed e, s) = err e.message

  abbrev pub load_catalog : Result (Option (List (CatalogEntry L))) → Store L → Result (Store L)
  load_catalog (err m) s = err "read runs directory"
  load_catalog (ok none) s = ok s
  load_catalog (ok (some entries)) s = do
    loaded ← load_entries s.world.has_factory entries s
    recovered_store (recover_persisted_runs deps loaded)

  -- The listing of the directory `runs`, which may be an error or missing, is an argument.
  unfoldable pub open_store :
      String
      → Result (Option (List (CatalogEntry L)))
      → List (String × PersistedRun)
      → World L
      → Result (Store L)
  open_store root listing disk world = do
    reject (root == "") "persistence root is required"
    load_catalog listing (new_store root disk world)
