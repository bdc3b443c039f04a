-- ===== src/Verifier/RawChains.antt =====
-- `validateRawChains` of internal/verification/verifier.go.
use harness_trajectory_bench.Prelude.{
  String, ◌||◌, Option, none, some, List, [], ◌∷◌, ◌++◌, ◌==◌, ◌!=◌, nat_eq, string_eq, bool_eq,
  list_eq, pair_eq, length, err, Check, ◌>>=◌, ◌>>◌, reject, or_fail, check_all, lookup, insert,
}
use harness_trajectory_bench.Hex.{Sha256}
use harness_trajectory_bench.Evidence.Raw.{RawRecord, chain_seed, validate_chain}

-- Sensor and boot.
abbrev pub RawSource : Type 0
RawSource = String × String

abbrev pub raw_source : RawRecord → RawSource
raw_source r = (r.sensor_id, r.boot_id)

abbrev pub records_or_none : Option (List RawRecord) → List RawRecord
records_or_none none = []
records_or_none (some rs) = rs

-- `chains`: the records by source, each in the order of the input.
unfoldable pub group_by_source :
    List RawRecord → List (RawSource × List RawRecord) → List (RawSource × List RawRecord)
group_by_source [] chains = chains
group_by_source (r ∷ rs) chains =
    group_by_source rs
      (insert (raw_source r) (records_or_none (lookup (raw_source r) chains) ++ r ∷ []) chains)

module _ (hash : Sha256) (run_spec_digest plan_digest : String) where
  -- One round over the chains; a chain in the map has at least one record.
  unfoldable pub check_raw_chain : List (RawSource × String) → RawSource × List RawRecord → Check
  check_raw_chain expected (source, []) = err "index out of range"
  check_raw_chain expected (source, r ∷ rs) = do
    seed ← chain_seed hash run_spec_digest plan_digest r.sensor_id r.boot_id
    head ← validate_chain hash (r ∷ rs) seed
    wanted ← or_fail (lookup source expected) "head mismatch or missing"
    reject (wanted != head) "head mismatch or missing"

  -- `expected` is a map: no source stands in it twice.
  unfoldable pub validate_raw_chains : List RawRecord → List (RawSource × String) → Check
  validate_raw_chains records expected = do
    reject ((run_spec_digest == "") || (plan_digest == ""))
        "raw records require run spec and observation plan digests"
    let chains = group_by_source records []
    reject (length chains != length expected) "raw chain heads do not match supplied chains"
    check_all (check_raw_chain expected) chains
