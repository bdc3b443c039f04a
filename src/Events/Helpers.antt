-- ===== src/Events/Helpers.antt =====
-- pkg/events/validation_helpers.go and the operations of pkg/events/events.go.
use harness_trajectory_bench.Prelude.{
  ℕ, String, Bool, true, false, ◌&&◌, ◌||◌, not, none, some, List, [], ◌∷◌, ltb, leb, if◌then◌else◌,
  ◌==◌, ◌!=◌, nat_eq, string_eq, bool_eq, list_eq, pair_eq, Bytes, length, Result, ok, err, Check,
  pass, ◌>>=◌, ◌>>◌, reject, or_fail, codes, len,
}
use harness_trajectory_bench.Hex.{hex_decode, all_lower_hex}
use harness_trajectory_bench.Events.Codec.{Codec, Strict}

abbrev pub one_of : String → List String → Bool
one_of value [] = false
one_of value (candidate ∷ allowed) = (value == candidate) || one_of value allowed

unfoldable pub is_sha256 : String → Bool
unfolding hex_decode all_lower_hex len
is_sha256 value =
    if len value != 64
    then false
    else if all_lower_hex (codes value)
    then elim (hex_decode (codes value)) [ none ↦ false | some b ↦ true ]
    else false

abbrev pub valid_usage_quality : String → Bool
valid_usage_quality value = one_of value (
    "provider_reported" ∷ "derived_from_provider_reported" ∷ "harness_reported" ∷ "client_estimated"
    ∷ "unavailable" ∷ [])

abbrev starts_with : ℕ → Bytes → Bool
starts_with c [] = false
starts_with c (b ∷ bs) = b == c

module _ (json : Codec) where
  unfoldable pub decode_strict : {A : Type 0} → Strict A → Bytes → Result A
  decode_strict decode raw = do
    (v, rest) ← or_fail (decode raw) "json"
    reject (not (json.at_end rest)) "payload must contain one JSON value"
    ok v

  unfoldable pub is_json_object : Bytes → Bool
  is_json_object raw =
      let trimmed = json.trim_space raw in
      leb 2 (length trimmed) && starts_with b'{' trimmed && json.valid trimmed

  unfoldable pub is_json_array : Bytes → Bool
  is_json_array raw =
      let trimmed = json.trim_space raw in
      leb 2 (length trimmed) && starts_with b'[' trimmed && json.valid trimmed

  unfoldable pub validate_surface_op : Bytes → Check
  unfolding decode_strict
  validate_surface_op [] = pass
  validate_surface_op (b ∷ bs) = elim (json.text (b ∷ bs)) [
    | some append_op ↦ if append_op == "append" then pass else err "surfaceOp string must be append"
    | none ↦ do
      replace ← decode_strict json.replace_op (b ∷ bs)
      reject
          ((replace.op != "replace")
            || (replace.start == 0)
            || (replace.end == 0)
            || ltb replace.end replace.start)
          "invalid replace surfaceOp"
  ]
