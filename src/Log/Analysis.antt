-- ===== src/Log/Analysis.antt =====
-- internal/projection/analysis.go: the counts over a log.
use harness_trajectory_bench.Prelude.{
  ℕ, ◌+◌, String, Bool, true, false, Option, none, some, List, [], ◌∷◌, ◌==◌, nat_eq, string_eq,
  bool_eq, list_eq, pair_eq, length, Result, ok, ◌>>=◌, ◌>>◌, or_fail, lookup, insert, uint64,
}
use harness_trajectory_bench.Hex.{Sha256}
use harness_trajectory_bench.Events.Types.{TrackedEvent}
use harness_trajectory_bench.Events.Codec.{Codec}
use harness_trajectory_bench.Events.Helpers.{one_of}
use harness_trajectory_bench.Log.Validate.{validate_log}

pub record Analysis : Type 0 where
  pub event_count : ℕ
  pub type_counts : List (String × ℕ)
  pub plaintext_bytes : List (String × ℕ)
  pub model_exchanges : List (String × ℕ)
  pub sensor_loss_events : ℕ

abbrev pub or_zero : Option ℕ → ℕ
or_zero none = 0
or_zero (some n) = n

-- The value of a counter; a missing key counts 0.
unfoldable pub count : String → List (String × ℕ) → ℕ
count key m = or_zero (lookup key m)

-- `m[key] += n` on uint64.
unfoldable pub bump : String → ℕ → List (String × ℕ) → List (String × ℕ)
bump key n m = insert key (uint64 (count key m + n)) m

abbrev pub loss_types : List String
loss_types = "sensor/gap" ∷ "sensor/drop" ∷ "sensor/saturation" ∷ "sensor/parse-failure" ∷ []

abbrev pub exchange_types : List String
exchange_types = "model/request" ∷ "model/stream-chunk" ∷ "model/response" ∷ []

module _ (json : Codec) where
  abbrev pub tally_plaintext : Analysis → TrackedEvent → Result Analysis
  tally_plaintext a event = do
    details ← or_fail (json.plaintext_details event.raw_data) "plaintext projection"
    ok (record a {
      plaintext_bytes = bump details.direction details.payload.length a.plaintext_bytes;
    })

  abbrev pub tally_exchange : Analysis → TrackedEvent → Result Analysis
  tally_exchange a event = do
    details ← or_fail (json.exchange_details event.raw_data) "model projection"
    ok (record a { model_exchanges = bump details.model_exchange_id 1 a.model_exchanges })

  abbrev pub tally_loss : Analysis → Analysis
  tally_loss a = record a { sensor_loss_events = uint64 (a.sensor_loss_events + 1) }

  -- The `switch`, by the outcomes of its tests.
  abbrev pub tally_kind : Analysis → TrackedEvent → Bool → Bool → Bool → Result Analysis
  tally_kind a event true exchange loss = tally_plaintext a event
  tally_kind a event false true loss = tally_exchange a event
  tally_kind a event false false true = ok (tally_loss a)
  tally_kind a event false false false = ok a

  -- One round of the loop of `Build`.
  unfoldable pub tally : Analysis → TrackedEvent → Result Analysis
  tally a event =
      tally_kind (record a { type_counts = bump event.event_type 1 a.type_counts }) event
        (event.event_type == "network/plaintext") (one_of event.event_type exchange_types)
        (one_of event.event_type loss_types)

  unfoldable pub tally_all : Analysis → List TrackedEvent → Result Analysis
  tally_all a [] = ok a
  tally_all a (event ∷ log) = do next ← tally a event; tally_all next log

  unfoldable pub build : Sha256 → List TrackedEvent → Result Analysis
  build hash log = do
    validate_log json hash log
    tally_all
        (record {
          event_count = uint64 (length log);
          type_counts = [];
          plaintext_bytes = [];
          model_exchanges = [];
          sensor_loss_events = 0;
        })
        log
