-- ===== src/Events/Content.antt =====
-- pkg/events/validation_helpers.go: content blocks and plaintext records.
use harness_trajectory_bench.Prelude.{
  ℕ, zero, suc, String, Bool, true, false, ◌&&◌, ◌||◌, not, Option, none, some, List, [], ◌∷◌,
  if◌then◌else◌, ◌==◌, ◌!=◌, nat_eq, string_eq, bool_eq, list_eq, pair_eq, Bytes, length, Result,
  ok, err, Check, pass, ◌>>=◌, ◌>>◌, reject, or_fail, check_all, utf8,
}
use harness_trajectory_bench.Hex.{Sha256, hex_encode}
use harness_trajectory_bench.Events.Types.{ContentBlock}
use harness_trajectory_bench.Events.Codec.{Codec}
use harness_trajectory_bench.Events.Observed.{ArtifactSlice, CapturedBytes, NetworkPlaintext}
use harness_trajectory_bench.Events.Helpers.{one_of, is_sha256, is_json_object, is_json_array}

abbrev pub is_none {ℓ} : {A : Type ℓ} → Option A → Bool
is_none none = true
is_none (some a) = false

abbrev pub bad_slice : Option ArtifactSlice → ℕ → Bool
bad_slice none n = false
bad_slice (some a) n = (a.artifact_id == "") || (a.length != n)

module _ (json : Codec) where
  -- The `switch` of one block; `nested` is the recursive call for the content of a tool result.
  unfoldable pub validate_block : (List ContentBlock → Check) → ContentBlock → Check
  unfolding is_json_object is_json_array
  validate_block nested block =
      if one_of block.block_type ("text" ∷ "reasoning" ∷ [])
      then reject (block.text == "") "content requires text"
      else if block.block_type == "image"
      then reject (not (is_json_object json block.attachment)) "image content requires attachment"
      else if block.block_type == "tool-call"
      then reject
          ((block.id == "") || (block.name == "") || not (json.valid (utf8 block.arguments)))
          "invalid tool-call content"
      else if block.block_type == "tool-result"
      then (do
        reject
            ((block.tool_call_id == "")
              || is_none block.is_error
              || not (is_json_array json block.content))
            "tool-result requires toolCallId, content, and isError"
        result_blocks ← or_fail (json.blocks block.content) "tool-result content"
        nested result_blocks)
      else err "unknown content block type"

  -- `fuel` bounds the nesting; a tool result holds texts and images only, so 2 is enough.
  unfoldable pub validate_content : ℕ → List String → List ContentBlock → Check
  unfolding validate_block
  validate_content zero allowed blocks = err "out of fuel"
  validate_content (suc fuel) allowed blocks =
      let nested = validate_content fuel ("text" ∷ "image" ∷ []) in
      check_all
        (λ block. do
          reject (not (one_of block.block_type allowed)) "content block type is not allowed here"
          validate_block nested block)
        blocks

  unfoldable pub inline_payload_bytes : CapturedBytes → Result Bytes
  unfolding utf8
  inline_payload_bytes p =
      if p.encoding == "utf8"
      then ok (utf8 p.inline)
      else or_fail (json.base64 p.inline) "illegal base64 data"

  -- The digest and length of a payload that stands in the record itself.
  abbrev pub validate_inline : Sha256 → CapturedBytes → Check
  validate_inline hash p = do
    payload ← inline_payload_bytes p
    reject (length payload != p.length) "plaintext length mismatch"
    reject (hex_encode (hash.sum payload) != p.sha256) "plaintext hash mismatch"

  unfoldable pub validate_network_plaintext : Sha256 → NetworkPlaintext → Check
  unfolding is_sha256 inline_payload_bytes
  validate_network_plaintext hash p = do
    reject
        ((p.boundary != "sandbox")
          || (p.capture_point == "")
          || (p.connection_id == "")
          || (p.stream_id == "")
          || (p.sequence == 0)
          || not (one_of p.direction ("ingress" ∷ "egress" ∷ []))
          || (p.protocol.name == "")
          || (p.capture.method == "")
          || (p.capture.backend == ""))
        "invalid plaintext record identity"
    reject (not (one_of p.transport ("tcp" ∷ "udp" ∷ "quic" ∷ "icmp" ∷ "raw-ip" ∷ [])))
        "unsupported transport"
    reject (one_of p.transport ("tcp" ∷ "quic" ∷ []) && is_none p.offset)
        "stream transport requires offset"
    reject (one_of p.transport ("udp" ∷ "icmp" ∷ "raw-ip" ∷ []) && not (is_none p.offset))
        "datagram transport must omit offset"
    reject (not (one_of p.payload.encoding ("utf8" ∷ "base64" ∷ [])))
        "payload encoding must be utf8 or base64"
    reject (not (is_none p.payload.artifact) && (p.payload.inline != ""))
        "payload cannot use inline and artifact representations"
    reject (is_none p.payload.artifact && (p.payload.inline == "") && (p.payload.length != 0))
        "non-empty payload requires inline or artifact representation"
    reject (bad_slice p.payload.artifact p.payload.length) "invalid payload artifact slice"
    reject (not (is_sha256 p.payload.sha256)) "payload sha256 must be lowercase sha256 hex"
    reject ((p.capture.key_material_digest != "") && not (is_sha256 p.capture.key_material_digest))
        "key material digest must be lowercase sha256 hex"
    if is_none p.payload.artifact then validate_inline hash p.payload else pass
