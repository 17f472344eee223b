-- ===== src/Protobuf.antt =====
-- The runtime that tsclient/recstore-ts/src/compiled.js calls, `protobufjs/minimal` (lines 4-7):
-- its Reader, Writer and util are no part of the repository, so they are a record of operations
-- with the behaviour that the package documents. The reader's members `buf`, `pos` and `len` are
-- read and assigned by the compiled code itself, so they are fields here.
pub mod Outcome
pub mod Runtime
pub mod Writes
pub mod Loop
pub mod Decoder
pub mod Codec
pub mod Message
pub mod Optional
pub mod Repeated
pub mod Packed
pub mod ScalarList
pub mod MapField
pub mod RoundTrip
pub mod Build
pub mod Unknown
