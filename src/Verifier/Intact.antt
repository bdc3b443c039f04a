-- ===== src/Verifier/Intact.antt =====
-- What `validateRawChains` of internal/verification/verifier.go establishes.
use mathlib.Core.List.{append_assoc, append-nil}
use harness_trajectory_bench.Prelude.{
  String, ◌≡◌, refl, sym, ap, ◌∙◌, subst, ◌⊎◌, inl, inr, true, false, ◌||◌, some, List, [], ◌∷◌,
  ◌++◌, arith, if◌then◌else◌, ◌==◌, ◌!=◌, ==_iff, nat_eq, string_eq, bool_eq, list_eq, pair_eq,
  Bool-cases, Option-cases, length, keep_if, All, ok, Check, pass, reject, or_fail, check_all,
  >>=-eq-ok, >>-eq-ok, reject-eq-pass, or_fail-eq-ok, !=-eq-false, lookup, insert, lookup-insert,
}
use harness_trajectory_bench.Hex.{Sha256}
use harness_trajectory_bench.Evidence.Raw.{RawRecord, chain_seed, validate_chain}
use harness_trajectory_bench.Evidence.Chain.{IsChain, validate_chain-IsChain}
use harness_trajectory_bench.Verifier.RawChains.{
  RawSource, raw_source, records_or_none, group_by_source, check_raw_chain, validate_raw_chains,
}

-- The records of one source, in order.
abbrev pub of_source : RawSource → List RawRecord → List RawRecord
of_source k = keep_if (λ r. raw_source r == k)

-- The records that a chain of the map holds.
abbrev held : RawSource → List (RawSource × List RawRecord) → List RawRecord
held k chains = records_or_none (lookup k chains)

held-group_by_source :
    (k : RawSource) (records : List RawRecord) (chains : List (RawSource × List RawRecord))
    → held k (group_by_source records chains) ≡ held k chains ++ of_source k records
unfolding group_by_source
held-group_by_source k [] chains = sym (append-nil (held k chains))
held-group_by_source k (r ∷ rs) chains =
    let own = records_or_none (lookup (raw_source r) chains) ++ r ∷ [] in
    held-group_by_source k rs (insert (raw_source r) own chains)
    ∙ ap (λ o. records_or_none o ++ of_source k rs) (lookup-insert (raw_source r) k own chains)
    ∙ added (Bool-cases (raw_source r == k))
  where
    added :
        ((raw_source r == k) ≡ true) ⊎ ((raw_source r == k) ≡ false)
        → records_or_none (
              if raw_source r == k
              then some (records_or_none (lookup (raw_source r) chains) ++ r ∷ [])
              else lookup k chains)
            ++ of_source k rs
          ≡ held k chains ++ of_source k (r ∷ rs)
    added (inl e) = rw e (
        ap (λ x. (held x chains ++ r ∷ []) ++ of_source k rs) ((==_iff (raw_source r) k).0 e)
        ∙ append_assoc (held k chains) (r ∷ []) (of_source k rs))
    added (inr e) = rw e refl

-- The check of a source that has a chain in the map.
checked_at :
    (check : RawSource × List RawRecord → Check) (k : RawSource)
    (chains : List (RawSource × List RawRecord)) {rs : List RawRecord}
    → lookup k chains ≡ some rs
    → check_all check chains ≡ pass
    → check (k, rs) ≡ pass
unfolding lookup
checked_at check k [] e h = cc
checked_at check k ((j, ss) ∷ chains) {rs = rs} e h =
    let (p, q) = >>-eq-ok (check (j, ss)) _ h in
    elim (Bool-cases (j == k)) [
      | inl x ↦
          let inside : some ss ≡ some rs = rw x at e in
          let same : ss ≡ rs = cc inside in
          subst (λ y. check (y, rs) ≡ pass) ((==_iff j k).0 x)
            (subst (λ y. check (j, y) ≡ pass) same p)
      | inr x ↦ checked_at check k chains {rs = rs} (ground arith) q
    ]

of_source-All :
    (k : RawSource) (records : List RawRecord) → All (λ r. raw_source r ≡ k) (of_source k records)
of_source-All k [] = tt
of_source-All k (r ∷ rs) = elim (Bool-cases (raw_source r == k)) [
  | inl e ↦ rw e ((==_iff (raw_source r) k).0 e, of_source-All k rs)
  | inr e ↦ rw e (of_source-All k rs)
]

module _ (hash : Sha256) (run_spec_digest plan_digest : String) where
  -- The records of a source form a chain, from the seed of the run, to the expected head.
  pub record Anchored (expected : List (RawSource × String)) (k : RawSource) (rs : List RawRecord)
      : Type 0 where
    pub seed : String
    pub head : String
    pub seeded : chain_seed hash run_spec_digest plan_digest k.0 k.1 ≡ ok seed
    pub chained : validate_chain hash rs seed ≡ ok head
    pub intact : IsChain hash rs
    pub wanted : lookup k expected ≡ some head

  check_raw_chain-Anchored :
      (expected : List (RawSource × String)) (k : RawSource) (r : RawRecord) (rs : List RawRecord)
      → raw_source r ≡ k
      → check_raw_chain hash run_spec_digest plan_digest expected (k, r ∷ rs) ≡ pass
      → Anchored expected k (r ∷ rs)
  unfolding check_raw_chain
  check_raw_chain-Anchored expected k r rs same h =
      let (seed, p, h1) =
        >>=-eq-ok (chain_seed hash run_spec_digest plan_digest r.sensor_id r.boot_id) _ h in
      let (head, q, h2) = >>=-eq-ok (validate_chain hash (r ∷ rs) seed) _ h1 in
      let (wanted, w, h3) = >>=-eq-ok (or_fail (lookup k expected) _) _ h2 in
      record {
        seed = seed;
        head = head;
        seeded =
            subst (λ (x : RawSource). chain_seed hash run_spec_digest plan_digest x.0 x.1 ≡ ok seed)
              same p;
        chained = q;
        intact = validate_chain-IsChain hash (r ∷ rs) seed q;
        wanted = or_fail-eq-ok _ _ w ∙ ap some (!=-eq-false wanted head (reject-eq-pass _ _ h3));
      }

  Anchored-of :
      (expected : List (RawSource × String)) (k : RawSource) (rs : List RawRecord)
      → All (λ r. raw_source r ≡ k) rs
      → check_raw_chain hash run_spec_digest plan_digest expected (k, rs) ≡ pass
      → Anchored expected k rs
  unfolding check_raw_chain
  Anchored-of expected k [] same h = cc
  Anchored-of expected k (r ∷ rs) same h = check_raw_chain-Anchored expected k r rs same.0 h

  -- If `validateRawChains` accepts, then for every source: either there is no record of it, or its
  -- records, in the order of the input, are an intact chain from the seed of the run's digests and
  -- the source to a head that is the expected one.
  pub raw_chains_intact :
      (records : List RawRecord) (expected : List (RawSource × String)) (k : RawSource)
      → validate_raw_chains hash run_spec_digest plan_digest records expected ≡ pass
      → (of_source k records ≡ []) ⊎ Anchored expected k (of_source k records)
  unfolding validate_raw_chains lookup
  raw_chains_intact records expected k h =
      let chains = group_by_source records [] in
      let grouped = held-group_by_source k records [] in
      let (_, h1) = >>-eq-ok (reject ((run_spec_digest == "") || (plan_digest == "")) _) _ h in
      let (_, h2) = >>-eq-ok (reject (length chains != length expected) _) _ h1 in
      elim (Option-cases (lookup k chains)) [
        | inl e ↦ inl (sym grouped ∙ ap records_or_none e)
        | inr (rs, e) ↦
            let same : rs ≡ of_source k records = sym (ap records_or_none e) ∙ grouped in
            inr (
              Anchored-of expected k (of_source k records) (of_source-All k records) (
                subst (λ x. check_raw_chain hash run_spec_digest plan_digest expected (k, x) ≡ pass)
                  same
                  (checked_at (check_raw_chain hash run_spec_digest plan_digest expected) k chains e
                    h2)))
      ]
