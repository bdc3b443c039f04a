-- ===== src/Lib.antt =====
-- Verification of the harness trajectory benchmark: the trusted log of tracked events, the raw
-- evidence chains, the plaintext streams, the execution contract, the control-plane store and what
-- is read off a log.
--
-- A run's sensors write raw records, chained by hashes (internal/evidence). Normalizers turn them into
-- tracked events, which the trusted appender numbers, stamps, validates and writes to a log of JSON
-- lines (internal/appender, pkg/events). The log is checked again when it is read
-- (internal/eventlog), replayed to the conversation surface (internal/replay) and counted
-- (internal/projection). Plaintext events are joined to streams and reconciled with the flows at the
-- boundary (internal/plaintext). Whether a run may count as verified follows from its specification,
-- its observation plan, the backend's capabilities and the sensors' health (pkg/backend,
-- internal/profile). The control-plane store keeps the runs, their lifecycle, their logs and their
-- evidence reports, on disk as well if it has a root, and asks a driver to execute them
-- (internal/api).
--
-- Which file models which part:
--   Prelude: shared types and lemmas. Results is Go's error result, with messages without their
--     formatted arguments; Maps is Go's map as an association list; Once is the loop with a map of
--     seen keys; Texts has the bytes and code points of a string; Int has int64 and uint64.
--   Hex: encoding/hex, and SHA-256 as a parameter of which only the size of its sums is known.
--     Hex/Collides says that two lists of inputs, hashed in turn, differ at a place where their sums
--     agree; Hex/Laws and Hex/Digits hold proofs.
--   Events/Types, Events/Observed: the payload types of pkg/events/events.go. Events/Codec: what the
--     code asks of encoding/json, encoding/base64 and bytes.TrimSpace, as a record of functions.
--     Events/Helpers, Events/Content: pkg/events/validation_helpers.go. Events/Core, Events/Validate:
--     pkg/events/validate.go. Events/Fuel: the fuel of Content.
--   Appender/State: the operations of internal/appender/appender.go. The state is that of the Go
--     struct, with the bytes of the log file and of the seal marker; the answers of the clock and of
--     the file system are arguments. Appender/Frames: ValidateFrames and the lineage of events.
--     Appender/Session: sessions as sequences of calls. The other files of Appender hold proofs.
--   Evidence/Raw: raw records, frames and chains of internal/evidence/raw.go. Evidence/Merkle: the
--     Merkle root of digests. Evidence/Manifest: run manifests, with what is proved of them. The
--     other files of Evidence hold proofs. A wall time is an unbounded instant with its zone, of which
--     a frame holds the low 64 bits of the instant.
--   Contracts/Plan, Contracts/Health: the checks of pkg/backend/contracts.go and
--     internal/profile/verified.go. Contracts/Levels, Families, Coverage and Eligible:
--     proofs.
--   Plaintext/Assembler: internal/plaintext/assembler.go. Streams, Reassembly and Flows: proofs.
--   Log/Validate, Log/Replay, Log/Analysis: internal/eventlog/validate.go, internal/replay/replay.go
--     and internal/projection/analysis.go. Log/Accepts, Surface and Counts: proofs.
--   Store/Types, Store/State: the records of internal/api/types.go and the state of the Store of
--     internal/api/server.go, with the answers to come of the clock, the random source, the disk, the
--     driver and the factory of logs; a method is an action, a function of the state that returns a
--     reply and the next state. Store/Persist, Catalog, Recovery, Opening: internal/api/persistence.go.
--     Store/Append, Create, Mutate, Publish: the methods of the Store. Store/Pages: the pages of the
--     HTTP handler. Store/Requests and Store/Sessions: sessions as sequences of requests. Store/Steps:
--     the small steps that the methods are made of. Store/TrustedLog: the trusted appender as the
--     event log of a run. The other files of Store hold proofs.
--   Verifier/RawChains: validateRawChains of internal/verification/verifier.go. Verifier/Intact: proofs.
--   Tests: concrete inputs, with a small hash and a small codec.
--
-- Numbers are natural numbers, and each sum on uint64 keeps its wrap-around as a remainder. Bytes are
-- numbers; a string is a sequence of code points with its UTF-8 bytes. The nesting of content blocks
-- is bounded by a fuel of 2, and the levels of a Merkle tree by the number of its leaves, which is
-- enough; every other loop of the code is a recursion on a list. A session of the appender takes the
-- codec's word for it that a stamped event's frame is one line that reads back as the event
-- (ReadsBack in Appender/Durable).
--
-- Not modelled: the routes of the HTTP handler and the reads that print or sort what the store holds
-- (internal/api), raw coverage and manifest signatures (the rest of internal/evidence), Verify, which
-- composes the parts (internal/verification), bundles, normalizers and the OpenAI-compatible boundary.
-- The backends, drivers, commands and the client are left out as calls of the operating system and the
-- network.
pub mod Prelude
pub mod Hex
pub mod Events
pub mod Appender
pub mod Evidence
pub mod Contracts
pub mod Plaintext
pub mod Log
pub mod Verifier
pub mod Store
pub mod Tests
