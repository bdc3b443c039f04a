-- ===== src/Store/Latch.antt =====
-- The error latch of internal/api/persistence.go.
use harness_trajectory_bench.Prelude.{
  String, ◌≡◌, refl, Bool, true, false, some, arith, nat_eq, string_eq, bool_eq, list_eq, pair_eq,
}
use harness_trajectory_bench.Store.Types.{ApiError}
use harness_trajectory_bench.Store.State.{Store, Reply, Action, refuse, ◌>>◌}
use harness_trajectory_bench.Store.Persist.{latch_error, latched}
use harness_trajectory_bench.Store.Append.{Deps}
use harness_trajectory_bench.Store.Create.{create, bad_spec}
use harness_trajectory_bench.Store.Mutate.{mutate}
use harness_trajectory_bench.Store.Publish.{complete, append_event, set_evidence_verification}
use harness_trajectory_bench.Store.Requests.{
  Request, creation, mutation, completion, appending, publication, sealing, outcome, handle,
}
use harness_trajectory_bench.Store.Rules.{refuse-ends, latched-ends}

-- A seal is not kept by the store, so it does not ask for the latch.
abbrev pub is_sealing : Request → Bool
is_sealing (creation req) = false
is_sealing (mutation id m) = false
is_sealing (completion id status reason) = false
is_sealing (appending id event) = false
is_sealing (publication id v) = false
is_sealing (sealing id) = true

module _ {L : Type 0} (deps : Deps L) where
  -- An error, and the same store.
  abbrev Refused : {B : Type 0} → Store L → Reply B × Store L → Type 0
  Refused s x = (e : ApiError) × (outcome x ≡ (some e, s))

  at_latch :
      {B : Type 0} (s : Store L) (e : String) (k : Action L B)
      → s.files.persist_error ≡ some e
      → Refused s ((latched >> k) s)
  at_latch s e k latch =
      latched-ends s (Refused s) k (latch_error, refl)
        (λ fine. absurd (ground (arith, fine, latch)))

  past_guard :
      {B : Type 0} (s : Store L) (b : Bool) (error : ApiError) (e : String) (k : Action L B)
      → s.files.persist_error ≡ some e
      → Refused s ((refuse b error >> (latched >> k)) s)
  past_guard s b error e k latch =
      refuse-ends s (Refused s) b error (latched >> k) (error, refl) (λ fine. at_latch s e k latch)

  -- Once an error of persistence is latched, every request other than a seal fails and leaves
  -- the store, its logs, its disk and the world as they were.
  pub latched-handle :
      (s : Store L) (request : Request) (e : String)
      → s.files.persist_error ≡ some e
      → is_sealing request ≡ false
      → (error : ApiError) × (handle deps request s ≡ (some error, s))
  unfolding handle create mutate complete append_event set_evidence_verification
  latched-handle s (creation req) e latch changes = past_guard s (bad_spec req.spec) _ e _ latch
  latched-handle s (mutation id m) e latch changes = past_guard s _ _ e _ latch
  latched-handle s (completion id status reason) e latch changes = past_guard s _ _ e _ latch
  latched-handle s (appending id event) e latch changes = at_latch s e _ latch
  latched-handle s (publication id v) e latch changes = at_latch s e _ latch
  latched-handle s (sealing id) e latch changes = absurd (ground arith)
