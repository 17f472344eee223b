-- ===== src/Wrapper.antt =====
-- The wrapper messages of `google.protobuf` in tsclient/recstore-ts/src/compiled.js.
pub mod Int64Value
