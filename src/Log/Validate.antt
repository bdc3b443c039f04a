-- ===== src/Log/Validate.antt =====
-- internal/eventlog/validate.go: the checks of a whole trajectory log.
use harness_trajectory_bench.Prelude.{
  ℕ, ◌+◌, String, Bool, false, ◌||◌, not, List, [], ◌∷◌, leb, if◌then◌else◌, ◌==◌, ◌!=◌, nat_eq,
  string_eq, bool_eq, list_eq, pair_eq, Bytes, is_nil, Result, ok, Check, pass, ◌>>=◌, ◌>>◌, reject,
  or_fail, uint64, check_once,
}
use harness_trajectory_bench.Hex.{Sha256}
use harness_trajectory_bench.Events.Types.{TrackedEvent}
use harness_trajectory_bench.Events.Codec.{Codec}
use harness_trajectory_bench.Events.Validate.{validate_event}

abbrev pub check_source : ℕ → ℕ → Check
check_source seq source =
    reject ((source == 0) || leb seq source) "lineage reference is not earlier"

-- The loop over the lineage references.
unfoldable pub check_sources : ℕ → List ℕ → Check
check_sources seq sources =
    check_once (λ source. source) "duplicate lineage reference" (check_source seq) (λ source. pass)
      [] sources

abbrev pub correction_types : String → Bool
correction_types t = (t == "correction/event") || (t == "event/correction")

-- `found`, after the loop over the sources.
abbrev pub names_source : List ℕ → ℕ → Bool
names_source [] seq = false
names_source (s ∷ ss) seq = (s == seq) || names_source ss seq

module _ (json : Codec) where
  unfoldable pub validate_correction : TrackedEvent → Check
  validate_correction e = do
    d ← or_fail (json.correction e.raw_data) "json"
    reject ((d.supersedes_seq == 0) || leb e.seq d.supersedes_seq || (d.reason == ""))
        "correction/event requires earlier supersedesSeq and reason"
    reject (not (names_source e.source_event_seqs d.supersedes_seq))
        "correction/event must include supersedesSeq in sourceEventSeqs"

module _ (json : Codec) (hash : Sha256) where
  -- One round of `Validate`; `i` counts from 0.
  unfoldable pub validate_entry : ℕ → TrackedEvent → Check
  validate_entry i e = do
    reject (e.seq != uint64 (i + 1)) "event has another seq"
    validate_event json hash e
    check_sources e.seq e.source_event_seqs
    if correction_types e.event_type then validate_correction json e else pass

  unfoldable pub validate_entries : ℕ → List TrackedEvent → Check
  validate_entries i [] = pass
  validate_entries i (e ∷ log) = do validate_entry i e; validate_entries (i + 1) log

  unfoldable pub validate_log : List TrackedEvent → Check
  validate_log log = validate_entries 0 log

  -- `DecodeJSONL` on the lines that its scanner returns; a line is trimmed, and skipped if empty.
  unfoldable pub decode_lines : List Bytes → Result (List TrackedEvent)
  decode_lines [] = ok []
  decode_lines (line ∷ lines) =
      let rest = decode_lines lines in
      if is_nil (json.trim_space line)
      then rest
      else do e ← or_fail (json.event (json.trim_space line)) "line"; log ← rest; ok (e ∷ log)

  -- `failed`: the scanner's own error, for instance a line over 16 MiB.
  unfoldable pub decode_jsonl : List Bytes → Bool → Result (List TrackedEvent)
  decode_jsonl lines failed = do
    log ← decode_lines lines
    reject failed "scan"
    validate_log log
    ok log
