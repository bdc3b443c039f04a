-- ===== src/Store/Again.antt =====
-- Repeated requests to `mutateContext` of internal/api/server.go.
use harness_trajectory_bench.Prelude.{
  String, ◌≡◌, refl, ap, ◌∙◌, subst, inl, inr, Bool, true, false, ◌&&◌, Option, none, some, arith,
  ◌!=◌, Bool-cases, !=-eq-false, lookup, nat_eq, string_eq, bool_eq, list_eq, pair_eq,
}
use harness_trajectory_bench.Store.Types.{LifecycleMutation, Run, ApiError, IdempotencyRecord}
use harness_trajectory_bench.Store.State.{
  Store, Reply, done, failed, Action, refuse, continue, ◌>>=◌, ◌>>◌,
}
use harness_trajectory_bench.Store.Persist.{latched}
use harness_trajectory_bench.Store.Append.{
  Deps, find_run, prior_run, unless_prior, match_request, answer_again, answer_with,
}
use harness_trajectory_bench.Store.Mutate.{transition, mutate, mutation_key}
use harness_trajectory_bench.Store.Rules.{refuse-ends, latched-ends, find-ends}
use harness_trajectory_bench.Store.Remembering.{After, Remembered, answer_of, transition-After}
use harness_trajectory_bench.Store.Passes.{
  refuse-passes, latched-passes, find_run-passes, prior_run-answers,
}

module _ {L : Type 0} (deps : Deps L) (fingerprint : LifecycleMutation → String) (id : String)
    (m : LifecycleMutation) (keyed : (m.idempotency_key != "") ≡ true) where
  -- A repetition of the request.
  again :
      (r : Run) (t : Store L)
      → ((m.action != "start") && (m.action != "stop")) ≡ false
      → Remembered deps fingerprint id m keyed r t
      → mutate deps fingerprint id m t ≡ (done r, t)
  unfolding mutate
  again r t valid held =
      refuse-passes ((m.action != "start") && (m.action != "stop")) _ (latched >> after_latch) t
        valid
      ∙ latched-passes after_latch t held.fine
      ∙ find_run-passes id (λ u. asking u) t held.known.0 held.known.1
      ∙ prior_run-answers (m.idempotency_key != "") (mutation_key id m) (fingerprint m) r
          (transition deps fingerprint id held.known.0 m) t keyed held.answer
    where
      asking : Run → Action L Run
      asking u =
          prior_run (m.idempotency_key != "") (mutation_key id m) (fingerprint m) >>= λ prior.
          unless_prior prior (transition deps fingerprint id u m)

      after_latch : Action L Run
      after_latch = find_run id >>= λ u. asking u

  -- The answer to an earlier request with the same key, or a new one.
  answered-After :
      (r : Run) (s : Store L)
      → s.files.persist_error ≡ none
      → lookup id s.book.runs ≡ some r
      → (After deps fingerprint id m keyed) (
          (prior_run true (mutation_key id m) (fingerprint m) >>= λ prior.
          unless_prior prior (transition deps fingerprint id r m))
            s)
  answered-After r s fine found = go (lookup (mutation_key id m) s.book.idempotency) refl
    where
      chosen : Option Run → Action L Run
      chosen prior = unless_prior prior (transition deps fingerprint id r m)

      same_answer :
          (c : IdempotencyRecord)
          → c.request ≡ fingerprint m
          → c.failure ≡ none
          → c ≡ answer_of deps fingerprint id m keyed c.run
      same_answer c e f =
          ap (λ x. record { run = c.run; request = x; failure = c.failure }) e
          ∙ ap (λ x. record { run = c.run; request = fingerprint m; failure = x }) f

      replayed :
          (c : IdempotencyRecord)
          → lookup (mutation_key id m) s.book.idempotency ≡ some c
          → c.request ≡ fingerprint m
          → (o : Option ApiError) → c.failure ≡ o
          → (After deps fingerprint id m keyed) (continue chosen (answer_with c.run o s))
      replayed c kept e (some x) f = tt
      replayed c kept e none f = record {
        known = (r, found);
        fine = fine;
        answer = kept ∙ ap some (same_answer c e f);
      }

      matched :
          (c : IdempotencyRecord)
          → lookup (mutation_key id m) s.book.idempotency ≡ some c
          → (b : Bool) → (c.request != fingerprint m) ≡ b
          → (After deps fingerprint id m keyed) (
              continue chosen (
                (refuse b (record {
                  code = "conflict";
                  message = "idempotency key was used for a different request";
                })
                    >> answer_again c)
                  s))
      matched c kept true e = tt
      matched c kept false e =
          replayed c kept (!=-eq-false c.request (fingerprint m) e) c.failure refl

      go :
          (o : Option IdempotencyRecord)
          → lookup (mutation_key id m) s.book.idempotency ≡ o
          → (After deps fingerprint id m keyed)
              (continue chosen (match_request (fingerprint m) o s))
      go none e = transition-After deps fingerprint id m keyed r s fine
      go (some c) e = matched c e (c.request != fingerprint m) refl

  mutate-After :
      (s : Store L) → (After deps fingerprint id m keyed) (mutate deps fingerprint id m s)
  unfolding mutate
  mutate-After s =
      refuse-ends s (After deps fingerprint id m keyed)
        ((m.action != "start") && (m.action != "stop")) _ (latched >> after_latch) tt
        λ valid. latched-ends s (After deps fingerprint id m keyed) after_latch tt λ fine.
          find-ends s (After deps fingerprint id m keyed) id (λ u. asking u) tt
            λ r found. rw keyed (answered-After r s fine found)
    where
      asking : Run → Action L Run
      asking u =
          prior_run (m.idempotency_key != "") (mutation_key id m) (fingerprint m) >>= λ prior.
          unless_prior prior (transition deps fingerprint id u m)

      after_latch : Action L Run
      after_latch = find_run id >>= λ u. asking u

  abbrev Failed : Reply Run × Store L → Type 0
  Failed (done r, t) = true ≡ false
  Failed (failed e, t) = Unit

  unanswered :
      (s : Store L)
      → ((m.action != "start") && (m.action != "stop")) ≡ true
      → Failed (mutate deps fingerprint id m s)
  unfolding mutate
  unanswered s invalid =
      refuse-ends s Failed ((m.action != "start") && (m.action != "stop")) _ _ tt
        λ valid. absurd (ground (arith, valid, invalid))

  -- A request to start or stop a run that carries an idempotency key and succeeded gives, when it is
  -- repeated at once, the same run again and leaves the store, its logs, its disk and the world as
  -- they are.
  pub mutate-again :
      (s t : Store L) (r : Run)
      → mutate deps fingerprint id m s ≡ (done r, t)
      → mutate deps fingerprint id m t ≡ (done r, t)
  mutate-again s t r h = elim (Bool-cases ((m.action != "start") && (m.action != "stop"))) [
    | inr valid ↦ again r t valid (subst (After deps fingerprint id m keyed) h (mutate-After s))
    | inl invalid ↦ absurd (ground (arith, subst Failed h (unanswered s invalid)))
  ]
