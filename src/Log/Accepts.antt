-- ===== src/Log/Accepts.antt =====
-- When `Validate` of internal/eventlog/validate.go accepts a log, and that it accepts the appender's.
use mathlib.Core.List.{Memᴰ}
use mathlib.Core.List.Memᴰ.{head, tail}
use harness_trajectory_bench.Prelude.{
  ℕ, ◌+◌, ◌<◌, ◌≡◌, refl, sym, ◌≢◌, ◌↔◌, ◌⊎◌, inl, inr, Bool, true, false, ◌||◌, some, List, [],
  ◌∷◌, arith, leb, if◌then◌else◌, ◌==◌, ◌!=◌, ==_iff, nat_eq, string_eq, bool_eq, list_eq, pair_eq,
  Bool-cases, All, pass, reject, or_fail, >>=-eq-ok, >>-eq-ok, reject-eq-pass, or_fail-eq-ok,
  !=-eq-false, ==_eq-false, uint64, All-map, Distinct, check_once, check_once_iff,
}
use harness_trajectory_bench.Hex.{Sha256}
use harness_trajectory_bench.Events.Types.{TrackedEvent, CorrectionData}
use harness_trajectory_bench.Events.Codec.{Codec}
use harness_trajectory_bench.Events.Validate.{validate_event}
use harness_trajectory_bench.Appender.Frames.{check_lineage, validate_lineage}
use harness_trajectory_bench.Appender.State.{Appender}
use harness_trajectory_bench.Appender.Session.{Reach, Reach-IsKept}
use harness_trajectory_bench.Appender.Sound.{Trusted}
use harness_trajectory_bench.Appender.Lifetime.{created, created-IsKept, IsDurable-Trusted}
use harness_trajectory_bench.Log.Validate.{
  check_source, check_sources, correction_types, names_source, validate_correction, validate_entry,
  validate_entries, validate_log,
}

-- Earlier events, each once.
abbrev pub IsLineage : ℕ → List ℕ → Type 0
IsLineage seq sources = All (λ s. (0 < s) × (s < seq)) sources × Distinct (λ s. s) sources

-- The correction names an earlier event that it cites, and a reason.
pub record Corrects (json : Codec) (e : TrackedEvent) : Type 0 where
  pub correction : CorrectionData
  pub read : json.correction e.raw_data ≡ some correction
  pub positive : 0 < correction.supersedes_seq
  pub earlier : correction.supersedes_seq < e.seq
  pub reason : correction.reason ≢ ""
  pub cited : Memᴰ correction.supersedes_seq e.source_event_seqs

source_iff : (seq s : ℕ) → (check_source seq s ≡ pass) ↔ ((0 < s) × (s < seq))
source_iff seq s = (λ h. (ground arith, ground arith), λ h. ground arith)

sources_iff :
    (seq : ℕ) (sources : List ℕ) → (check_sources seq sources ≡ pass) ↔ IsLineage seq sources
unfolding check_sources
sources_iff seq sources =
    let once =
      check_once_iff (λ s. s) "duplicate lineage reference" (check_source seq) (λ s. pass)
        sources in
    (
      λ h. (All-map _ _ (λ s p. (source_iff seq s).0 p.0) sources (once.0 h).0, (once.0 h).1),
      λ h. once.1 (All-map _ _ (λ s p. ((source_iff seq s).1 p, refl)) sources h.0, h.1),
    )

names_source-Memᴰ : (ss : List ℕ) (n : ℕ) → names_source ss n ≡ true → Memᴰ n ss
names_source-Memᴰ [] n h = cc
names_source-Memᴰ (s ∷ ss) n h = elim (Bool-cases (s == n)) [
  | inl e ↦ head (sym ((==_iff s n).0 e))
  | inr e ↦ tail (names_source-Memᴰ ss n (ground arith))
]

Memᴰ-names_source : (ss : List ℕ) (n : ℕ) → Memᴰ n ss → names_source ss n ≡ true
Memᴰ-names_source [] n m = elim m [ ]
Memᴰ-names_source (s ∷ ss) n (head e) = rw ((==_iff s n).1 (sym e)) refl
Memᴰ-names_source (s ∷ ss) n (tail m) = ground (arith, Memᴰ-names_source ss n m)

module _ (json : Codec) where
  correction_iff : (e : TrackedEvent) → (validate_correction json e ≡ pass) ↔ Corrects json e
  unfolding validate_correction
  correction_iff e = (
    λ h.
        (let (d, p, h1) = >>=-eq-ok (or_fail (json.correction e.raw_data) "json") _ h in
          let (q, h2) =
            >>-eq-ok
              (reject ((d.supersedes_seq == 0) || leb e.seq d.supersedes_seq || (d.reason == "")) _)
              _ h1 in
          let bad = reject-eq-pass _ _ q in
          record {
            correction = d;
            read = or_fail-eq-ok _ _ p;
            positive = ground arith;
            earlier = ground arith;
            reason = λ z. absurd (ground (arith, (==_iff d.reason "").1 z));
            cited = names_source-Memᴰ e.source_event_seqs d.supersedes_seq (ground arith);
          }),
    λ c.
        rw
          (
            c.read,
            ==_eq-false c.correction.reason "" c.reason,
            Memᴰ-names_source e.source_event_seqs c.correction.supersedes_seq c.cited,
          )
          (let p = c.positive in let q = c.earlier in ground arith),
  )

module _ (json : Codec) (hash : Sha256) where
  abbrev pub IsEntry : ℕ → TrackedEvent → Type 0
  IsEntry n e =
      (e.seq ≡ uint64 n)
      × (validate_event json hash e ≡ pass)
      × IsLineage e.seq e.source_event_seqs
      × ((correction_types e.event_type ≡ false) ⊎ Corrects json e)

  -- The entries from number `n` on.
  abbrev pub IsLog : ℕ → List TrackedEvent → Type 0
  IsLog n [] = Unit
  IsLog n (e ∷ log) = IsEntry n e × IsLog (n + 1) log

  IsEntry-iff :
      (i : ℕ) (e : TrackedEvent) → (validate_entry json hash i e ≡ pass) ↔ IsEntry (i + 1) e
  unfolding validate_entry
  IsEntry-iff i e = (
    λ h.
        (let (p, h1) = >>-eq-ok (reject (e.seq != uint64 (i + 1)) _) _ h in
          let (q, h2) = >>-eq-ok (validate_event json hash e) _ h1 in
          let (r, h3) = >>-eq-ok (check_sources e.seq e.source_event_seqs) _ h2 in
          (
            !=-eq-false e.seq (uint64 (i + 1)) (reject-eq-pass _ _ p),
            q,
            (sources_iff e.seq e.source_event_seqs).0 r,
            corrected (correction_types e.event_type) h3,
          )),
    λ h.
        rw
          (
            (==_iff e.seq (uint64 (i + 1))).1 h.0,
            h.1,
            (sources_iff e.seq e.source_event_seqs).1 h.2,
          )
          (checked (correction_types e.event_type) h.3),
  )
    where
      corrected :
          (b : Bool)
          → (if b then validate_correction json e else pass) ≡ pass
          → (b ≡ false) ⊎ Corrects json e
      corrected true h = inr ((correction_iff json e).0 h)
      corrected false h = inl refl

      checked :
          (b : Bool)
          → (b ≡ false) ⊎ Corrects json e
          → (if b then validate_correction json e else pass) ≡ pass
      checked true (inl x) = cc
      checked true (inr c) = (correction_iff json e).1 c
      checked false c = refl

  entries_iff :
      (i : ℕ) (log : List TrackedEvent)
      → (validate_entries json hash i log ≡ pass) ↔ IsLog (i + 1) log
  unfolding validate_entries
  entries_iff i [] = (λ h. tt, λ h. refl)
  entries_iff i (e ∷ log) = (
    λ h.
        (let (p, q) = >>-eq-ok (validate_entry json hash i e) _ h in
          ((IsEntry-iff i e).0 p, (entries_iff (i + 1) log).0 q)),
    λ h. rw ((IsEntry-iff i e).1 h.0) ((entries_iff (i + 1) log).1 h.1),
  )

  -- `Validate` accepts exactly the logs whose events are numbered from 1 without a gap, are each
  -- valid, refer to earlier events only and to each once, and, where they are corrections, name an
  -- earlier event that they also cite, and a reason.
  pub validate_log_iff :
      (log : List TrackedEvent) → (validate_log json hash log ≡ pass) ↔ IsLog 1 log
  unfolding validate_log
  validate_log_iff log = entries_iff 0 log

  lineage-check_once :
      (seq : ℕ) (seen sources : List ℕ)
      → check_lineage seq seen sources ≡ pass
      → check_once
          (λ s. s)
          "duplicate lineage reference"
          (check_source seq)
          (λ s. pass)
          seen
          sources
        ≡ pass
  unfolding check_lineage
  lineage-check_once seq seen [] h = refl
  lineage-check_once seq seen (s ∷ ss) h =
      let rest = lineage-check_once seq (s ∷ seen) ss (ground arith) in ground arith

  Trusted-IsLog :
      (n : ℕ) (log : List TrackedEvent)
      → All (λ e. correction_types e.event_type ≡ false) log
      → Trusted json hash n log
      → IsLog n log
  unfolding validate_lineage
  Trusted-IsLog n [] c t = tt
  Trusted-IsLog n (e ∷ log) c (a, b, l, t) = (
    (
      a,
      b,
      (sources_iff e.seq e.source_event_seqs).0
          (unfold check_sources in lineage-check_once e.seq [] e.source_event_seqs l),
      inl c.0,
    ),
    Trusted-IsLog (n + 1) log c.1 t,
  )

  -- The acknowledged events of any session of the appender, in which writes and syncs succeed, pass
  -- `Validate` if none of them is a correction.
  pub session_validates :
      (a : Appender)
      → Reach json hash created a
      → All (λ e. correction_types e.event_type ≡ false) a.events
      → validate_log json hash a.events ≡ pass
  session_validates a r c = (validate_log_iff a.events).1 (
      Trusted-IsLog 1 a.events c (
        IsDurable-Trusted json hash a
          (Reach-IsKept json hash (created-IsKept json hash) r).durable))
