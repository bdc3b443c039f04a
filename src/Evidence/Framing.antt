-- ===== src/Evidence/Framing.antt =====
-- A frame determines the record it was made of.
use mathlib.Core.List.{append-nil}
use harness_trajectory_bench.Prelude.{
  ◌^◌, ◌<◌, ◌≡◌, refl, sym, ◌∙◌, [], ◌++◌, nat_eq, string_eq, bool_eq, list_eq, pair_eq, Bytes,
  append_inj, ok, reject, >>=-eq-ok, >>-eq-ok, ok-injective,
}
use harness_trajectory_bench.Evidence.Raw.{
  RawRecord, missing_identity, bad_previous, raw_frame_magic, be64, write_bytes, write_string,
  write_optional, wall_bits, frame,
}
use harness_trajectory_bench.Evidence.Bytes.{
  Fits64, InstantFits, instant_of, be64-injective, write_bytes-injective, write_string-injective,
  write_optional-injective, wall_bits-injective, Fits64-wall_bits,
}

-- The integer fields of a record are in the ranges of their Go types, and its wall time in that of
-- `UnixNano`.
pub record InRange (r : RawRecord) : Type 0 where
  pub source_seq : r.source_seq < 2 ^ 64
  pub monotonic : Fits64 r.observed_monotonic_ns
  pub wall : InstantFits r.observed_wall_time

-- The parts of a frame, each with the field that it encodes.
pub record Parts (r : RawRecord) (f : Bytes) : Type 0 where
  pub run : Bytes
  pub sensor : Bytes
  pub boot : Bytes
  pub kind : Bytes
  pub encoding : Bytes
  pub previous : Bytes
  pub payload : Bytes
  pub run_of : write_string r.run_id ≡ ok run
  pub sensor_of : write_string r.sensor_id ≡ ok sensor
  pub boot_of : write_string r.boot_id ≡ ok boot
  pub kind_of : write_string r.record_type ≡ ok kind
  pub encoding_of : write_string r.encoding ≡ ok encoding
  pub previous_of : write_string r.previous_record_sha256 ≡ ok previous
  pub payload_of : write_bytes r.payload ≡ ok payload
  pub whole :
      f
      ≡ raw_frame_magic
        ++ (run
            ++ (sensor
                ++ (boot
                    ++ (be64 r.source_seq
                        ++ (write_optional r.observed_monotonic_ns
                            ++ (write_optional (wall_bits r.observed_wall_time)
                                ++ (kind ++ (encoding ++ (previous ++ payload)))))))))

pub frame-Parts : (r : RawRecord) {f : Bytes} → frame r ≡ ok f → Parts r f
unfolding frame
frame-Parts r h =
    let (_, h0) =
      >>-eq-ok (reject (missing_identity r) "raw record has missing identity or type") _ h in
    let (_, h1) = >>-eq-ok (reject (bad_previous r) "invalid previous record hash") _ h0 in
    let (run, e1, h2) = >>=-eq-ok (write_string r.run_id) _ h1 in
    let (sensor, e2, h3) = >>=-eq-ok (write_string r.sensor_id) _ h2 in
    let (boot, e3, h4) = >>=-eq-ok (write_string r.boot_id) _ h3 in
    let (kind, e4, h5) = >>=-eq-ok (write_string r.record_type) _ h4 in
    let (encoding, e5, h6) = >>=-eq-ok (write_string r.encoding) _ h5 in
    let (previous, e6, h7) = >>=-eq-ok (write_string r.previous_record_sha256) _ h6 in
    let (payload, e7, h8) = >>=-eq-ok (write_bytes r.payload) _ h7 in
    record {
      run = run;
      sensor = sensor;
      boot = boot;
      kind = kind;
      encoding = encoding;
      previous = previous;
      payload = payload;
      run_of = e1;
      sensor_of = e2;
      boot_of = e3;
      kind_of = e4;
      encoding_of = e5;
      previous_of = e6;
      payload_of = e7;
      whole = sym (ok-injective h8);
    }

-- The records agree on all that a frame holds: of the wall time, the instant without the zone.
pub record SameFields (r s : RawRecord) : Type 0 where
  pub run_id : r.run_id ≡ s.run_id
  pub sensor_id : r.sensor_id ≡ s.sensor_id
  pub boot_id : r.boot_id ≡ s.boot_id
  pub source_seq : r.source_seq ≡ s.source_seq
  pub monotonic : r.observed_monotonic_ns ≡ s.observed_monotonic_ns
  pub wall : instant_of r.observed_wall_time ≡ instant_of s.observed_wall_time
  pub record_type : r.record_type ≡ s.record_type
  pub encoding : r.encoding ≡ s.encoding
  pub previous : r.previous_record_sha256 ≡ s.previous_record_sha256
  pub payload : r.payload ≡ s.payload

-- Two records with the same frame, whose integer fields are in the ranges of their Go types and
-- whose wall times are instants that an int64 of nanoseconds holds, agree on every field but the
-- record hash, which is not framed, and the zone of the wall time: of it, they have the same
-- instant.
pub frame-injective :
    (r s : RawRecord) {f : Bytes}
    → InRange r
    → InRange s
    → frame r ≡ ok f
    → frame s ≡ ok f
    → SameFields r s
frame-injective r s hr hs p q =
    let a = frame-Parts r p in
    let b = frame-Parts s q in
    let (_, e0) = append_inj raw_frame_magic raw_frame_magic _ _ refl (sym a.whole ∙ b.whole) in
    let (run, e1) = write_string-injective r.run_id s.run_id _ _ a.run_of b.run_of e0 in
    let (sensor, e2) =
      write_string-injective r.sensor_id s.sensor_id _ _ a.sensor_of b.sensor_of e1 in
    let (boot, e3) = write_string-injective r.boot_id s.boot_id _ _ a.boot_of b.boot_of e2 in
    let (seq, e4) = be64-injective r.source_seq s.source_seq _ _ hr.source_seq hs.source_seq e3 in
    let (mono, e5) =
      write_optional-injective r.observed_monotonic_ns s.observed_monotonic_ns _ _ hr.monotonic
        hs.monotonic e4 in
    let (wall, e6) =
      write_optional-injective (wall_bits r.observed_wall_time) (wall_bits s.observed_wall_time) _ _
        (Fits64-wall_bits r.observed_wall_time) (Fits64-wall_bits s.observed_wall_time) e5 in
    let (kind, e7) =
      write_string-injective r.record_type s.record_type _ _ a.kind_of b.kind_of e6 in
    let (encoding, e8) =
      write_string-injective r.encoding s.encoding _ _ a.encoding_of b.encoding_of e7 in
    let (previous, e9) =
      write_string-injective r.previous_record_sha256 s.previous_record_sha256 _ _ a.previous_of
        b.previous_of e8 in
    let (payload, _) =
      write_bytes-injective r.payload s.payload [] [] a.payload_of b.payload_of
        (append-nil a.payload ∙ e9 ∙ sym (append-nil b.payload)) in
    record {
      run_id = run;
      sensor_id = sensor;
      boot_id = boot;
      source_seq = seq;
      monotonic = mono;
      wall = wall_bits-injective r.observed_wall_time s.observed_wall_time hr.wall hs.wall wall;
      record_type = kind;
      encoding = encoding;
      previous = previous;
      payload = payload;
    }
