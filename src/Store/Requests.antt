-- ===== src/Store/Requests.antt =====
-- The requests that change the store of internal/api/server.go, and how it serves a list of them.
use harness_trajectory_bench.Prelude.{
  String, Option, none, some, nat_eq, string_eq, bool_eq, list_eq, pair_eq,
}
use harness_trajectory_bench.Events.Types.{TrackedEvent}
use harness_trajectory_bench.Store.Types.{
  CreateRunRequest, LifecycleMutation, VerificationResult, ApiError,
}
use harness_trajectory_bench.Store.State.{Store, Reply, done, failed}
use harness_trajectory_bench.Store.Append.{Deps}
use harness_trajectory_bench.Store.Create.{create}
use harness_trajectory_bench.Store.Mutate.{mutate}
use harness_trajectory_bench.Store.Publish.{
  complete, append_event, set_evidence_verification, seal_run,
}

pub data Request : Type 0 where
  creation : CreateRunRequest → Request
  mutation : String → LifecycleMutation → Request
  completion : String → String → String → Request  -- of a run, with a status and a reason
  appending : String → TrackedEvent → Request
  publication : String → VerificationResult → Request
  sealing : String → Request

-- The error of a reply, if any.
abbrev pub outcome : {A L : Type 0} → Reply A × Store L → Option ApiError × Store L
outcome (done a, s) = (none, s)
outcome (failed e, s) = (some e, s)

module _ {L : Type 0} (deps : Deps L) where
  unfoldable pub handle : Request → Store L → Option ApiError × Store L
  handle (creation req) s = outcome (create deps.create_print req s)
  handle (mutation id m) s = outcome (mutate deps deps.mutation_print id m s)
  handle (completion id status reason) s = outcome (complete deps id status reason s)
  handle (appending id event) s = outcome (append_event deps id event s)
  handle (publication id verification) s = outcome (set_evidence_verification id verification s)
  handle (sealing id) s = outcome (seal_run deps id s)
