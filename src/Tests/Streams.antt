-- ===== src/Tests/Streams.antt =====
-- A plaintext stream of two records with a refused one between them, and the theorems on it.
use mathlib.Core.List.{Memᴰ}
use harness_trajectory_bench.Prelude.{
  ℕ, String, ◌≡◌, refl, Bool, true, false, none, some, List, [], ◌∷◌, map, nat_eq, string_eq,
  bool_eq, list_eq, pair_eq, All, pass, contains, lookup, insert, utf8, len, Distinct,
}
use harness_trajectory_bench.Prelude.{pair_beq}
use harness_trajectory_bench.Hex.{hex_encode, hex_digit, hex_decode, all_lower_hex}
use harness_trajectory_bench.Events.Helpers.{is_sha256}
use harness_trajectory_bench.Events.Observed.{NetworkEndpoint, NetworkPlaintext}
use harness_trajectory_bench.Events.Content.{inline_payload_bytes, validate_network_plaintext}
use harness_trajectory_bench.Plaintext.Assembler.{
  StreamKey, new_assembler, stream_key, stream_of, payload_bytes, advance, extend, add,
  FlowAccounting, flow_key, reconcile_flows,
}
use harness_trajectory_bench.Plaintext.Streams.{joined}
use harness_trajectory_bench.Plaintext.Reassembly.{of_key, feed, accepted}
use harness_trajectory_bench.Plaintext.Flows.{Settled, reconciled_flows}
use harness_trajectory_bench.Tests.Fixtures.{toy_hash, toy_json}

abbrev nowhere : NetworkEndpoint
nowhere = record { ip = "10.0.0.1"; port = 443; hostname = "" }

abbrev chunk : ℕ → ℕ → String → Bool → NetworkPlaintext
chunk sequence offset text last = record {
  boundary = "sandbox";
  capture_point = "proxy";
  connection_id = "c";
  stream_id = "s";
  transport = "tcp";
  direction = "egress";
  sequence = sequence;
  offset = some offset;
  end_of_stream = last;
  source = nowhere;
  destination = nowhere;
  protocol = record { name = "http"; version = "1.1"; media_type = "" };
  payload = record {
    encoding = "utf8";
    inline = text;
    artifact = none;
    length = len text;
    sha256 = hex_encode (toy_hash.sum (utf8 text));
  };
  capture = record {
    method = "mitm";
    backend = "compat";
    original_security_protocol = "";
    key_material_digest = "";
    verified = true;
  };
}

abbrev offered : List NetworkPlaintext
offered = chunk 1 0 "ab" false ∷ chunk 3 2 "x" false ∷ chunk 2 2 "c" true ∷ []

abbrev key : StreamKey
key = ("sandbox", ("c", ("s", "egress")))

abbrev flow : FlowAccounting
flow = record {
  connection_id = "c";
  stream_id = "s";
  direction = "egress";
  bytes = 3;
  sha256 = hex_encode (toy_hash.sum (utf8 "abc"));
  denied = false;
}

taken :
    accepted toy_json none toy_hash new_assembler offered
    ≡ chunk 1 0 "ab" false ∷ chunk 2 2 "c" true ∷ []
unfolding add extend validate_network_plaintext toy_hash hex_encode hex_digit utf8 len payload_bytes
    advance stream_of inline_payload_bytes lookup insert is_sha256 all_lower_hex hex_decode pair_beq
taken = refl

reconciled :
    reconcile_flows toy_hash (feed toy_json none toy_hash new_assembler offered) (flow ∷ []) ≡ pass
unfolding reconcile_flows add extend validate_network_plaintext toy_hash hex_encode hex_digit utf8
    len payload_bytes advance stream_of inline_payload_bytes lookup insert is_sha256 all_lower_hex
    hex_decode contains pair_beq
reconciled = refl

reconciled_flows_example :
    Distinct flow_key (flow ∷ [])
    × All
        (λ f.
          Settled toy_hash
            (of_key (flow_key f) (accepted toy_json none toy_hash new_assembler offered))
            (joined toy_json none toy_hash
              (of_key (flow_key f) (accepted toy_json none toy_hash new_assembler offered)))
            f)
        (flow ∷ [])
    × All
        (λ c. Memᴰ (stream_key c) (map flow_key (flow ∷ [])))
        (accepted toy_json none toy_hash new_assembler offered)
reconciled_flows_example = reconciled_flows toy_json none toy_hash offered (flow ∷ []) reconciled
