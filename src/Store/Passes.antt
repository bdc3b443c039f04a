-- ===== src/Store/Passes.antt =====
-- What the guards of the methods of internal/api/server.go do when they let a request pass.
use harness_trajectory_bench.Prelude.{
  String, ◌≡◌, refl, ap, ◌∙◌, Bool, true, false, Option, none, some, arith, ◌!=◌, ==_refl, lookup,
  nat_eq, string_eq, bool_eq, list_eq, pair_eq,
}
use harness_trajectory_bench.Store.Types.{Run, ApiError}
use harness_trajectory_bench.Store.State.{Store, done, Action, pure, refuse, continue, ◌>>=◌, ◌>>◌}
use harness_trajectory_bench.Store.Persist.{latched, latched_by}
use harness_trajectory_bench.Store.Append.{find_run, found, prior_run, unless_prior, match_request}

module _ {L B : Type 0} where
  pub refuse-passes :
      (b : Bool) (e : ApiError) (k : Action L B) (s : Store L)
      → b ≡ false
      → (refuse b e >> k) s ≡ k s
  refuse-passes false e k s h = refl
  refuse-passes true e k s h = absurd (ground (arith, h))

  pub latched-passes :
      (k : Action L B) (s : Store L) → s.files.persist_error ≡ none → (latched >> k) s ≡ k s
  latched-passes k s h = go s.files.persist_error h
    where
      go : (o : Option String) → o ≡ none → continue (λ x. k) (latched_by o s) ≡ k s
      go none e = refl
      go (some m) e = absurd (ground (arith, e))

  pub find_run-passes :
      (id : String) (f : Run → Action L B) (s : Store L) (r : Run)
      → lookup id s.book.runs ≡ some r
      → (find_run id >>= f) s ≡ f r s
  find_run-passes id f s r h = ap (λ o. (found o >>= f) s) h

module _ {L : Type 0} where
  -- A request that was answered before gets the same answer.
  pub prior_run-answers :
      (keyed : Bool) (key request : String) (r : Run) (next : Action L Run) (s : Store L)
      → keyed ≡ true
      → lookup key s.book.idempotency ≡ some (record { run = r; request = request; failure = none })
      → (prior_run keyed key request >>= λ prior. unless_prior prior next) s ≡ (done r, s)
  prior_run-answers false key request r next s on h = absurd (ground (arith, on))
  prior_run-answers true key request r next s on h =
      ap (λ o. (match_request request o >>= λ prior. unless_prior prior next) s) h
      ∙ again (request != request) (ground (arith, ==_refl request))
    where
      again :
          (b : Bool)
          → b ≡ false
          → ((refuse b (record {
            code = "conflict";
            message = "idempotency key was used for a different request";
          })
                  >> pure (some r))
                >>= λ prior. unless_prior prior next)
              s
            ≡ (done r, s)
      again false e = refl
      again true e = absurd (ground (arith, e))
