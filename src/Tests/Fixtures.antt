-- ===== src/Tests/Fixtures.antt =====
-- Concrete parameters for the tests: a hash and a JSON codec that are small enough to compute.
use harness_trajectory_bench.Prelude.{
  ℕ, ◌+◌, ◌*◌, ◌/◌, ◌%◌, ◌<◌, String, ◌≡◌, refl, true, Option, none, some, [], ◌∷◌, arith, nat_eq,
  string_eq, bool_eq, list_eq, pair_eq, Bytes, length, is_nil, All, pos,
}
use harness_trajectory_bench.Hex.{Sha256}
use harness_trajectory_bench.Events.Types.{TrackedEvent}
use harness_trajectory_bench.Events.Codec.{Codec}

total : Bytes → ℕ
total [] = 0
total (b ∷ bs) = b + 3 * total bs

abbrev zeros : Bytes
zeros =
    0 ∷ 0 ∷ 0 ∷ 0 ∷ 0 ∷ 0 ∷ 0 ∷ 0 ∷ 0 ∷ 0 ∷ 0 ∷ 0 ∷ 0 ∷ 0 ∷ 0 ∷ 0 ∷ 0 ∷ 0 ∷ 0 ∷ 0 ∷ 0 ∷ 0 ∷ 0 ∷ 0
    ∷ 0 ∷ 0 ∷ 0 ∷ 0 ∷ 0 ∷ 0 ∷ []

unfoldable pub toy_sum : Bytes → Bytes
unfolding total
toy_sum b = (total b / 256 % 256) ∷ (total b % 256) ∷ zeros

pub size-toy_sum : (b : Bytes) → length (toy_sum b) ≡ 32
unfolding toy_sum
size-toy_sum b = refl

pub in_range-toy_sum : (b : Bytes) → All (λ x. x < 256) (toy_sum b)
unfolding toy_sum
in_range-toy_sum b = omega arith

unfoldable pub toy_hash : Sha256
unfolding toy_sum
toy_hash = record { sum = toy_sum; size = size-toy_sum; in_range = in_range-toy_sum }

abbrev pub empty_object : Bytes
empty_object = b'{' ∷ b'}' ∷ []

-- An unsequenced event of the given type.
abbrev pub plain : String → TrackedEvent
plain t = record {
  seq = 0;
  time = pos 0;
  event_type = t;
  raw_data = empty_object;
  ignorable = true;
  source_event_seqs = [];
  surface_op = [];
}

-- Frames of the toy codec are `{n}`, for a `run/start` event of number n.
abbrev pub read_frame : Bytes → Option TrackedEvent
read_frame (open_brace ∷ n ∷ close_brace ∷ []) = some (record (plain "run/start") { seq = n })
read_frame _ = none

abbrev pub toy_json : Codec
toy_json = record {
  valid = λ b. true;
  trim_space = λ b. b;
  at_end = λ b. is_nil b;
  base64 = λ s. none;
  event = read_frame;
  marshal = λ e. some (b'{' ∷ e.seq ∷ b'}' ∷ []);
  text = λ b. none;
  keys = λ b. some [];
  replace_op = λ b. none;
  replace_range = λ b. none;
  blocks = λ b. none;
  turn_start = λ b. none;
  user_message = λ b. none;
  request_header = λ b. none;
  request_context = λ b. none;
  llm_retry = λ b. none;
  step = λ b. none;
  assistant_chunk = λ b. none;
  assistant_message = λ b. none;
  tool_call = λ b. none;
  tool_result = λ b. none;
  turn_end = λ b. none;
  turn_end_reason = λ b. none;
  compaction = λ b. none;
  correction = λ b. none;
  evidence_probe = λ b. none;
  plaintext_details = λ b. none;
  exchange_details = λ b. none;
  usage_details = λ b. none;
}
