-- ===== src/Plaintext/Assembler.antt =====
-- internal/plaintext/assembler.go, whole.
use harness_trajectory_bench.Prelude.{
  ℕ, ◌+◌, String, Bool, false, ◌&&◌, ◌||◌, not, Option, none, some, List, [], ◌++◌, map,
  if◌then◌else◌, ◌==◌, ◌!=◌, nat_eq, string_eq, bool_eq, list_eq, pair_eq, Bytes, length, Result,
  ok, err, Check, pass, ◌>>=◌, ◌>>◌, reject, or_fail, check_all, contains, lookup, insert, uint64,
  check_once,
}
use harness_trajectory_bench.Hex.{Sha256, hex_encode}
use harness_trajectory_bench.Events.Observed.{CapturedBytes, NetworkPlaintext}
use harness_trajectory_bench.Events.Codec.{Codec}
use harness_trajectory_bench.Events.Content.{inline_payload_bytes, validate_network_plaintext}

-- Boundary, connection, stream and direction.
abbrev pub StreamKey : Type 0
StreamKey = String × (String × (String × String))

pub record StreamState : Type 0 where
  pub next_sequence : ℕ  -- uint64
  pub next_offset : ℕ  -- uint64
  pub closed : Bool
  pub bytes : Bytes

-- `&streamState{nextSequence: 1}`
abbrev pub fresh : StreamState
fresh = record { next_sequence = 1; next_offset = 0; closed = false; bytes = [] }

-- `ReadArtifact` of an artifact store, or none.
abbrev pub ArtifactResolver : Type 0
ArtifactResolver = Option (String → ℕ → ℕ → Result Bytes)

-- The map of the streams; the resolver never changes and is a parameter.
abbrev pub Assembler : Type 0
Assembler = List (StreamKey × StreamState)

abbrev pub new_assembler : Assembler
new_assembler = []

abbrev pub stream_key : NetworkPlaintext → StreamKey
stream_key p = (p.boundary, (p.connection_id, (p.stream_id, p.direction)))

-- The stream of a key: the entry of the map, or a new one.
unfoldable pub stream_of : StreamKey → Assembler → StreamState
stream_of k a = elim (lookup k a) [ some s ↦ s | none ↦ fresh ]

-- The offset of the next chunk; a datagram has none.
unfoldable pub advance : Option ℕ → ℕ → Bytes → Result ℕ
advance none next_offset b = ok next_offset
advance (some offset) next_offset b = do
  reject (offset != next_offset) "plaintext offset gap"
  ok (uint64 (next_offset + length b))

module _ (json : Codec) (resolver : ArtifactResolver) where
  -- `bytes`: what the payload holds.
  unfoldable pub payload_bytes : CapturedBytes → Result Bytes
  payload_bytes p = elim p.artifact [
    | none ↦ inline_payload_bytes json p
    | some slice ↦ elim resolver [
      | none ↦ err "artifact payload requires resolver"
      | some read_artifact ↦ read_artifact slice.artifact_id slice.offset slice.length
    ]
  ]

  -- `Add` from the stream on.
  unfoldable pub extend : Sha256 → StreamState → NetworkPlaintext → Result StreamState
  extend hash s p = do
    reject s.closed "plaintext chunk follows end of stream"
    reject (p.sequence != s.next_sequence) "plaintext sequence gap"
    b ← payload_bytes p.payload
    reject (uint64 (length b) != p.payload.length) "plaintext length mismatch"
    reject (hex_encode (hash.sum b) != p.payload.sha256) "plaintext hash mismatch"
    offset ← advance p.offset s.next_offset b
    ok (record {
      next_sequence = uint64 (s.next_sequence + 1);
      next_offset = offset;
      closed = p.end_of_stream || s.closed;
      bytes = s.bytes ++ b;
    })

  -- A record that is refused behind its validation leaves the entry of its stream in the map.
  unfoldable pub add : Sha256 → Assembler → NetworkPlaintext → Assembler × Check
  add hash a p = elim (validate_network_plaintext json hash p) [
    | err e ↦ (a, err e)
    | ok _ ↦
        let opened = insert (stream_key p) (stream_of (stream_key p) a) a in
        elim (extend hash (stream_of (stream_key p) a) p) [
          | err e ↦ (opened, err e)
          | ok s ↦ (insert (stream_key p) s opened, pass)
        ]
  ]

unfoldable pub bytes : Assembler → String → String → String → Result Bytes
bytes a connection_id stream_id direction = do
  s ←
      or_fail (lookup ("sandbox", (connection_id, (stream_id, direction))) a)
        "unknown plaintext stream"
  ok s.bytes

unfoldable pub is_closed : Assembler → String → String → String → Bool
is_closed a connection_id stream_id direction =
    elim (lookup ("sandbox", (connection_id, (stream_id, direction))) a) [
      | none ↦ false
      | some s ↦ s.closed
    ]

pub record FlowAccounting : Type 0 where
  pub connection_id : String
  pub stream_id : String
  pub direction : String
  pub bytes : ℕ
  pub sha256 : String
  pub denied : Bool

abbrev pub flow_key : FlowAccounting → StreamKey
flow_key f = ("sandbox", (f.connection_id, (f.stream_id, f.direction)))

abbrev pub check_flow : FlowAccounting → Check
check_flow f =
    reject
      ((f.connection_id == "")
        || (f.stream_id == "")
        || ((f.direction != "ingress") && (f.direction != "egress")))
      "invalid flow accounting"

-- The flow against its stream, if there is one.
abbrev pub settle : Sha256 → FlowAccounting → Option StreamState → Check
settle hash f none = if f.denied then pass else err "successful flow lacks complete plaintext"
settle hash f (some s) = if f.denied then err "denied flow has plaintext" else do
  reject (not s.closed) "successful flow lacks complete plaintext"
  reject ((uint64 (length s.bytes) != f.bytes) || (hex_encode (hash.sum s.bytes) != f.sha256))
      "flow does not reconcile"

abbrev pub check_accounted : List StreamKey → StreamKey × StreamState → Check
check_accounted seen (k, s) = reject (not (contains seen k)) "plaintext stream lacks boundary flow"

unfoldable pub reconcile_flows : Sha256 → Assembler → List FlowAccounting → Check
reconcile_flows hash a flows = do
  check_once flow_key "duplicate flow accounting" check_flow
      (λ f. settle hash f (lookup (flow_key f) a)) [] flows
  check_all (check_accounted (map flow_key flows)) a
