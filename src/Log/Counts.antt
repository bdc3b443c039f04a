-- ===== src/Log/Counts.antt =====
-- What `Build` of internal/projection/analysis.go counts.
use harness_trajectory_bench.Prelude.{
  ℕ, ◌+◌, String, ◌≡◌, refl, sym, ap, ◌∙◌, subst, inl, inr, Bool, true, false, Option, none, some,
  List, [], ◌∷◌, arith, if◌then◌else◌, ◌==◌, ==_iff, nat_eq, string_eq, bool_eq, list_eq, pair_eq,
  Bool-cases, length, ok, or_fail, >>=-eq-ok, >>-eq-ok, or_fail-eq-ok, ok-injective, lookup,
  lookup-insert, uint64,
}
use harness_trajectory_bench.Hex.{Sha256}
use harness_trajectory_bench.Events.Types.{TrackedEvent}
use harness_trajectory_bench.Events.Observed.{NetworkPlaintext}
use harness_trajectory_bench.Events.Codec.{Codec}
use harness_trajectory_bench.Events.Helpers.{one_of}
use harness_trajectory_bench.Log.Validate.{validate_log}
use harness_trajectory_bench.Log.Accepts.{IsLog, validate_log_iff}
use harness_trajectory_bench.Log.Analysis.{
  Analysis, count, bump, loss_types, exchange_types, tally_kind, tally, tally_all, build,
}

abbrev pub one_if : Bool → ℕ
one_if true = 1
one_if false = 0

-- The number of events that pass a test.
abbrev pub tally_of : (TrackedEvent → Bool) → List TrackedEvent → ℕ
tally_of p [] = 0
tally_of p (e ∷ log) = one_if (p e) + tally_of p log

-- The claimed bytes of the plaintext records of one direction; text that cannot be read claims none.
abbrev pub bytes_toward : String → Option NetworkPlaintext → ℕ
bytes_toward direction none = 0
bytes_toward direction (some d) = if d.direction == direction then d.payload.length else 0

abbrev pub claimed : Codec → String → TrackedEvent → ℕ
claimed json direction e =
    if e.event_type == "network/plaintext"
    then bytes_toward direction (json.plaintext_details e.raw_data)
    else 0

abbrev pub claimed_in : Codec → String → List TrackedEvent → ℕ
claimed_in json direction [] = 0
claimed_in json direction (e ∷ log) = claimed json direction e + claimed_in json direction log

count-bump :
    (k j : String) (n : ℕ) (m : List (String × ℕ))
    → count j (bump k n m) ≡ (if k == j then uint64 (count k m + n) else count j m)
unfolding count bump
count-bump k j n m = elim (Bool-cases (k == j)) [
  | inl e ↦ rw (lookup-insert k j (uint64 (count k m + n)) m, e) refl
  | inr e ↦ rw (lookup-insert k j (uint64 (count k m + n)) m, e) refl
]

no_loss :
    (t : String) (known : String)
    → one_of known loss_types ≡ false
    → t ≡ known
    → one_of t loss_types ≡ false
no_loss t known h e = subst (λ x. one_of x loss_types ≡ false) (sym e) h

exchange-no_loss : (t : String) → one_of t exchange_types ≡ true → one_of t loss_types ≡ false
exchange-no_loss t h = elim (Bool-cases (t == "model/request")) [
  | inl e ↦ no_loss t "model/request" refl ((==_iff t "model/request").0 e)
  | inr n ↦ elim (Bool-cases (t == "model/stream-chunk")) [
    | inl e ↦ no_loss t "model/stream-chunk" refl ((==_iff t "model/stream-chunk").0 e)
    | inr m ↦ no_loss t "model/response" refl ((==_iff t "model/response").0 (ground arith))
  ]
]

toward :
    (d : NetworkPlaintext) (direction : String) (n : ℕ) (m : List (String × ℕ))
    → count direction m ≡ uint64 n
    → count direction (bump d.direction d.payload.length m)
      ≡ uint64 (n + (if d.direction == direction then d.payload.length else 0))
toward d direction n m c =
    count-bump d.direction direction d.payload.length m
    ∙ elim (Bool-cases (d.direction == direction)) [
      | inl s ↦ rw (s, (==_iff d.direction direction).0 s) (omega (arith, c))
      | inr s ↦ rw s (omega (arith, c))
    ]

module _ (json : Codec) where
  -- What one event adds to counts that are known.
  record Adds (a : Analysis) (e : TrackedEvent) (b : Analysis) : Type 0 where
    events : b.event_count ≡ a.event_count
    types : b.type_counts ≡ a.type_counts
    bytes :
        (direction : String) (n : ℕ)
        → count direction a.plaintext_bytes ≡ uint64 n
        → count direction b.plaintext_bytes ≡ uint64 (n + claimed json direction e)
    losses :
        (n : ℕ)
        → a.sensor_loss_events ≡ uint64 n
        → b.sensor_loss_events ≡ uint64 (n + one_if (one_of e.event_type loss_types))

  kind-Adds :
      (a : Analysis) (e : TrackedEvent) (p x l : Bool) {b : Analysis}
      → (e.event_type == "network/plaintext") ≡ p
      → one_of e.event_type exchange_types ≡ x
      → one_of e.event_type loss_types ≡ l
      → tally_kind json a e p x l ≡ ok b
      → Adds a e b
  kind-Adds a e true x l {b = b} ep ex el h =
      let (d, r, g) =
        >>=-eq-ok (or_fail (json.plaintext_details e.raw_data) "plaintext projection") _ h in
      let none_lost =
        no_loss e.event_type "network/plaintext" refl
          ((==_iff e.event_type "network/plaintext").0 ep) in
      let read = or_fail-eq-ok _ _ r in
      subst (λ c. Adds a e c) (ok-injective g)
        (record {
          events = refl;
          types = refl;
          bytes = λ direction n c. rw (ep, read) (toward d direction n a.plaintext_bytes c);
          losses = λ n c. rw none_lost (omega (arith, c));
        })
  kind-Adds a e false true l ep ex el h =
      let (d, r, g) =
        >>=-eq-ok (or_fail (json.exchange_details e.raw_data) "model projection") _ h in
      subst (λ c. Adds a e c) (ok-injective g)
        (record {
          events = refl;
          types = refl;
          bytes = λ direction n c. rw ep (omega (arith, c));
          losses = λ n c. rw (exchange-no_loss e.event_type ex) (omega (arith, c));
        })
  kind-Adds a e false false true ep ex el h =
      subst (λ c. Adds a e c) (ok-injective h)
        (record {
          events = refl;
          types = refl;
          bytes = λ direction n c. rw ep (omega (arith, c));
          losses = λ n c. rw el (omega (arith, c));
        })
  kind-Adds a e false false false ep ex el h =
      subst (λ c. Adds a e c) (ok-injective h)
        (record {
          events = refl;
          types = refl;
          bytes = λ direction n c. rw ep (omega (arith, c));
          losses = λ n c. rw el (omega (arith, c));
        })

  -- The counts after a log, from counts that are known.
  record Counts (a : Analysis) (log : List TrackedEvent) (b : Analysis) : Type 0 where
    events : b.event_count ≡ a.event_count
    types :
        (t : String) (n : ℕ)
        → count t a.type_counts ≡ uint64 n
        → count t b.type_counts ≡ uint64 (n + tally_of (λ e. e.event_type == t) log)
    bytes :
        (direction : String) (n : ℕ)
        → count direction a.plaintext_bytes ≡ uint64 n
        → count direction b.plaintext_bytes ≡ uint64 (n + claimed_in json direction log)
    losses :
        (n : ℕ)
        → a.sensor_loss_events ≡ uint64 n
        → b.sensor_loss_events ≡ uint64 (n + tally_of (λ e. one_of e.event_type loss_types) log)

  next_type :
      (e : TrackedEvent) (t : String) (n : ℕ) (m : List (String × ℕ))
      → count t m ≡ uint64 n
      → count t (bump e.event_type 1 m) ≡ uint64 (n + one_if (e.event_type == t))
  next_type e t n m c = count-bump e.event_type t 1 m ∙ elim (Bool-cases (e.event_type == t)) [
    | inl s ↦ rw (s, (==_iff e.event_type t).0 s) (omega (arith, c))
    | inr s ↦ rw s (omega (arith, c))
  ]

  tally_all-Counts :
      (a : Analysis) (log : List TrackedEvent) {b : Analysis}
      → tally_all json a log ≡ ok b
      → Counts a log b
  unfolding tally_all tally
  tally_all-Counts a [] {b = b} h =
      subst (λ c. Counts a [] c) (ok-injective h)
        (record {
          events = refl;
          types = λ t n c. omega (arith, c);
          bytes = λ t n c. omega (arith, c);
          losses = λ n c. omega (arith, c);
        })
  tally_all-Counts a (e ∷ log) {b = b} h =
      let (next, p, q) = >>=-eq-ok (tally json a e) _ h in
      let adds =
        kind-Adds (record a { type_counts = bump e.event_type 1 a.type_counts }) e _ _ _ refl refl
          refl p in
      let rest = tally_all-Counts next log q in
      record {
        events = rest.events ∙ adds.events;
        types = λ t n c.
            rest.types t (n + one_if (e.event_type == t))
              (ap (λ m. count t m) adds.types ∙ next_type e t n a.type_counts c)
            ∙ omega arith;
        bytes = λ t n c. rest.bytes t (n + claimed json t e) (adds.bytes t n c) ∙ omega arith;
        losses = λ n c.
            rest.losses (n + one_if (one_of e.event_type loss_types)) (adds.losses n c)
            ∙ omega arith;
      }

  -- An analysis is built of an acceptable log only, and its counters, as uint64, are: the number of
  -- events; for any type, the number of events of that type; for any direction, the claimed lengths
  -- of its plaintext records; and the number of the sensors' loss events.
  pub build_counts :
      (hash : Sha256) (log : List TrackedEvent) (t direction : String) {a : Analysis}
      → build json hash log ≡ ok a
      → IsLog json hash 1 log
        × (a.event_count ≡ uint64 (length log))
        × (count t a.type_counts ≡ uint64 (tally_of (λ e. e.event_type == t) log))
        × (count direction a.plaintext_bytes ≡ uint64 (claimed_in json direction log))
        × (a.sensor_loss_events ≡ uint64 (tally_of (λ e. one_of e.event_type loss_types) log))
  unfolding build count lookup
  build_counts hash log t direction h =
      let (p, q) = >>-eq-ok (validate_log json hash log) _ h in
      let counts = tally_all-Counts _ log q in
      (
        (validate_log_iff json hash log).0 p,
        counts.events,
        counts.types t 0 refl ∙ omega arith,
        counts.bytes direction 0 refl ∙ omega arith,
        counts.losses 0 refl ∙ omega arith,
      )
