-- ===== src/Appender/State.antt =====
-- internal/appender/appender.go: the appender and its operations. `Snapshot` and `Since` copy, which
-- values need not; the mutex makes each operation one step.
use Prim.Native.String
use harness_trajectory_bench.Prelude.{
  ℕ, ◌+◌, String, Bool, true, false, not, Option, none, some, List, [], ◌∷◌, ◌++◌, leb,
  if◌then◌else◌, ◌==◌, ◌!=◌, nat_eq, string_eq, bool_eq, list_eq, pair_eq, Bytes, length, take,
  drop, Result, ok, err, Check, pass, ◌>>=◌, ◌>>◌, reject, or_fail, codes, ℤ, pos, negsuc, uint64,
}
use harness_trajectory_bench.Hex.{Sha256, hex_encode, hex_decode}
use harness_trajectory_bench.Events.Types.{TrackedEvent}
use harness_trajectory_bench.Events.Codec.{Codec}
use harness_trajectory_bench.Events.Validate.{validate_event}
use harness_trajectory_bench.Appender.Frames.{newline, validate_lineage, chain, validate_frames}

pub record Appender : Type 0 where
  pub file : Bytes  -- the log on disk
  pub seal_marker : Option String  -- the file `path + ".sealed"`
  pub events : List TrackedEvent
  pub head : Bytes
  pub next_seq : ℕ  -- uint64
  pub sealed : Bool
  pub closed : Bool

-- One answer of `Write`: how many bytes were taken, and whether an error came with them.
pub record WriteAnswer : Type 0 where
  pub written : ℕ
  pub failed : Bool

-- `writeAll`: what reached the file, and the error. A call past the listed answers takes everything.
unfoldable pub write_all : List WriteAnswer → Bytes → Bytes × Check
write_all [] p = (p, pass)
write_all (answer ∷ answers) [] = ([], pass)
write_all (answer ∷ answers) (b ∷ bs) =
    let n = answer.written in
    let later = write_all answers (drop n (b ∷ bs)) in
    if answer.failed
    then (take n (b ∷ bs), err "write")
    else if n == 0
    then ([], err "short write")
    else (take n (b ∷ bs) ++ later.0, later.1)

-- The clock, the answers of `Write`, and whether `Sync` succeeds, during one `Append`.
pub record AppendEnv : Type 0 where
  pub now : ℤ
  pub answers : List WriteAnswer
  pub synced : Bool

abbrev pub is_zero : ℤ → Bool
is_zero (pos n) = n == 0
is_zero (negsuc n) = false

abbrev pub marker_of : Bytes → String
marker_of head = String.◌++◌ (hex_encode head) "\n"

-- The answers of the file system during `Open`.
pub record OpenEnv : Type 0 where
  pub directory_made : Bool
  pub log_opened : Bool
  pub log_read : Bool
  pub marker_read : Bool
  pub sought : Bool

-- The answers of the file system during `Seal`. If the marker's text is not written whole, `torn` is
-- what the marker holds.
pub record SealEnv : Type 0 where
  pub log_synced : Bool
  pub marker_created : Bool
  pub marker_read : Bool
  pub torn : Option String
  pub marker_synced : Bool
  pub marker_closed : Bool
  pub directory_opened : Bool
  pub directory_synced : Bool
  pub directory_closed : Bool

module _ (json : Codec) (hash : Sha256) where
  -- `recover`: the state that the bytes of the log stand for.
  unfoldable pub recover : Bytes → Option String → Result Appender
  recover file marker = do
    (recovered, head) ← validate_frames json hash file
    decoded ← or_fail (hex_decode (codes head)) "hex"
    ok (record {
      file = file;
      seal_marker = marker;
      events = recovered;
      head = decoded;
      next_seq = uint64 (length recovered + 1);
      sealed = false;
      closed = false;
    })

  unfoldable pub inspect_marker : Bool → Appender → Result Appender
  inspect_marker readable a = elim a.seal_marker [
    | none ↦ if readable then ok a else err "inspect seal marker"
    | some marker ↦ do
      reject (not readable) "inspect seal marker"
      reject (marker != marker_of a.head) "seal marker does not match tracked event hash head"
      ok (record a { sealed = true })
  ]

  -- `Open` at a path whose log holds `file`, with the marker that stands beside it.
  unfoldable pub open_log : OpenEnv → String → Bytes → Option String → Result Appender
  open_log env path file marker = do
    reject (path == "") "log path is required"
    reject (not env.directory_made) "create log directory"
    reject (not env.log_opened) "open tracked event log"
    reject (not env.log_read) "read tracked event log"
    a ← recover file marker
    b ← inspect_marker env.marker_read a
    reject (not env.sought) "seek tracked event log"
    ok b

  -- `Append` up to the write: the stamped event and its frame.
  unfoldable pub encode_frame : ℤ → Appender → TrackedEvent → Result (TrackedEvent × Bytes)
  unfolding validate_lineage
  encode_frame now a event = do
    reject a.closed "tracked event appender is closed"
    reject a.sealed "tracked event log is sealed"
    reject (event.seq != 0) "caller must not assign seq"
    reject (not (is_zero event.time)) "caller must not assign time"
    let stamped = record event { seq = a.next_seq; time = now }
    validate_event json hash stamped
    validate_lineage stamped
    payload ← or_fail (json.marshal stamped) "encode event"
    ok (stamped, payload ++ newline ∷ [])

  -- The frame is acknowledged only after it was written and synced whole.
  unfoldable pub commit :
      AppendEnv → Appender → TrackedEvent × Bytes → Appender × Result TrackedEvent
  unfolding write_all chain
  commit env a (stamped, frame) =
      let (written, answer) = write_all env.answers frame in
      let stored = record a { file = a.file ++ written } in
      elim answer [
        | err e ↦ (stored, err e)
        | ok done ↦
            if env.synced
            then (
              record stored {
                head = chain hash a.head frame;
                events = a.events ++ stamped ∷ [];
                next_seq = uint64 (a.next_seq + 1);
              },
              ok stamped,
            )
            else (stored, err "sync event frame")
      ]

  unfoldable pub append : AppendEnv → Appender → TrackedEvent → Appender × Result TrackedEvent
  append env a event = elim (encode_frame env.now a event) [
    | err e ↦ (a, err e)
    | ok framed ↦ commit env a framed
  ]

-- `Since`: the acknowledged events after a sequence number.
unfoldable pub since : ℕ → Appender → List TrackedEvent
since seq a = if leb (length a.events) seq then [] else drop seq a.events

abbrev pub hash_head : Appender → String
hash_head a = hex_encode a.head

-- `Seal` once the marker is on disk: the directory entry is synced before the flag is set.
unfoldable pub sync_directory : SealEnv → Appender → Appender × Check
sync_directory env a =
    if not env.directory_opened
    then (a, err "open seal marker directory")
    else if not env.directory_synced
    then (a, err "sync seal marker directory")
    else if not env.directory_closed
    then (a, err "close seal marker directory")
    else (record a { sealed = true }, pass)

unfoldable pub write_marker : SealEnv → Appender → Appender × Check
unfolding sync_directory
write_marker env a = elim env.torn [
  | some part ↦ (record a { seal_marker = some part }, err "write seal marker")
  | none ↦
      let marked = record a { seal_marker = some (marker_of a.head) } in
      if not env.marker_synced
      then (marked, err "sync seal marker")
      else if not env.marker_closed
      then (marked, err "close seal marker")
      else sync_directory env marked
]

unfoldable pub check_marker : SealEnv → Appender → String → Appender × Check
unfolding sync_directory
check_marker env a existing =
    if not env.marker_read
    then (a, err "read existing seal marker")
    else if existing != marker_of a.head
    then (a, err "existing seal marker does not match tracked event hash head")
    else sync_directory env a

-- `O_EXCL` makes the creation fail if a marker stands there already.
unfoldable pub seal : SealEnv → Appender → Appender × Check
seal env a =
    if a.closed
    then (a, err "tracked event appender is closed")
    else if a.sealed
    then (a, pass)
    else if not env.log_synced
    then (a, err "sync before seal")
    else elim a.seal_marker [
      | some existing ↦ check_marker env a existing
      | none ↦ if env.marker_created then write_marker env a else (a, err "create seal marker")
    ]

-- `Close`, with the answers of `Sync` and of the file's `Close`.
unfoldable pub close : Bool → Bool → Appender → Appender × Check
close synced file_closed a =
    if a.closed
    then (a, pass)
    else if not synced
    then (a, err "sync before close")
    else if not file_closed
    then (a, err "close tracked event log")
    else (record a { closed = true }, pass)
