-- ===== src/Appender/Frames.antt =====
-- internal/appender/appender.go: the frames of the log, their hash chain and their validation.
use harness_trajectory_bench.Prelude.{
  ℕ, ◌+◌, String, Bool, false, ◌||◌, List, [], ◌∷◌, ◌++◌, leb, if◌then◌else◌, ◌==◌, ◌!=◌, nat_eq,
  string_eq, bool_eq, list_eq, pair_eq, Bytes, is_nil, Result, ok, err, Check, pass, ◌>>=◌, ◌>>◌,
  reject, or_fail, contains, uint64,
}
use harness_trajectory_bench.Hex.{Sha256, hex_encode}
use harness_trajectory_bench.Events.Types.{TrackedEvent}
use harness_trajectory_bench.Events.Codec.{Codec}
use harness_trajectory_bench.Events.Validate.{validate_event}

abbrev pub newline : ℕ
newline = b'\n'

-- The loop of `validateLineage`; `seen` is its map.
unfoldable pub check_lineage : ℕ → List ℕ → List ℕ → Check
check_lineage seq seen [] = pass
check_lineage seq seen (source ∷ sources) =
    let rest = check_lineage seq (source ∷ seen) sources in
    if (source == 0) || leb seq source
    then err "lineage reference is not earlier than seq"
    else if contains seen source
    then err "duplicate lineage reference"
    else rest

unfoldable pub validate_lineage : TrackedEvent → Check
unfolding check_lineage
validate_lineage event = check_lineage event.seq [] event.source_event_seqs

unfoldable pub chain : Sha256 → Bytes → Bytes → Bytes
chain hash previous frame = hash.sum (previous ++ frame)

abbrev pub zero_head : Bytes
zero_head =
    0 ∷ 0 ∷ 0 ∷ 0 ∷ 0 ∷ 0 ∷ 0 ∷ 0 ∷ 0 ∷ 0 ∷ 0 ∷ 0 ∷ 0 ∷ 0 ∷ 0 ∷ 0 ∷ 0 ∷ 0 ∷ 0 ∷ 0 ∷ 0 ∷ 0 ∷ 0 ∷ 0
    ∷ 0 ∷ 0 ∷ 0 ∷ 0 ∷ 0 ∷ 0 ∷ 0 ∷ 0 ∷ []

-- `b[len(b)-1] == '\n'`
abbrev pub ends_line : Bytes → Bool
ends_line [] = false
ends_line (b ∷ []) = b == newline
ends_line (b ∷ c ∷ bs) = ends_line (c ∷ bs)

-- The terminated lines of a text, without their newlines; `line` is the part of the first line that
-- has been read.
unfoldable pub split_lines : Bytes → Bytes → List Bytes
split_lines line [] = []
split_lines line (b ∷ bs) =
    let rest = split_lines (if b == newline then [] else line ++ b ∷ []) bs in
    if b == newline then line ∷ rest else rest

-- What `ValidateFrames` has recovered, and the chain head over it.
pub record Recovered : Type 0 where
  pub events : List TrackedEvent
  pub head : Bytes

module _ (json : Codec) (hash : Sha256) where
  -- One round of the loop of `ValidateFrames`.
  unfoldable pub validate_frame : ℕ → Recovered → Bytes → Result Recovered
  unfolding validate_lineage chain
  validate_frame frame_number r payload = do
    reject (is_nil payload) "frame is empty"
    event ← or_fail (json.event payload) "frame is invalid JSON"
    reject (event.seq != uint64 frame_number) "frame has another seq"
    validate_event json hash event
    validate_lineage event
    ok (record {
      events = r.events ++ event ∷ [];
      head = chain hash r.head (payload ++ newline ∷ []);
    })

  unfoldable pub validate_lines : ℕ → Recovered → List Bytes → Result Recovered
  unfolding validate_frame
  validate_lines frame_number r [] = ok r
  validate_lines frame_number r (payload ∷ lines) = do
    next ← validate_frame frame_number r payload
    validate_lines (frame_number + 1) next lines

  -- `ValidateFrames` before the head is printed.
  unfoldable pub recover_frames : Bytes → Result Recovered
  unfolding split_lines validate_lines
  recover_frames [] = ok (record { events = []; head = zero_head })
  recover_frames (b ∷ bs) =
      if ends_line (b ∷ bs)
      then validate_lines 1 (record { events = []; head = zero_head }) (split_lines [] (b ∷ bs))
      else err "tracked event log has a partial final frame"

  unfoldable pub validate_frames : Bytes → Result (List TrackedEvent × String)
  unfolding recover_frames
  validate_frames b = do r ← recover_frames b; ok (r.events, hex_encode r.head)
