-- ===== src/Monitoring.antt =====
-- The messages of `hydrosphere.monitoring` in tsclient/recstore-ts/src/compiled.js.
pub mod ExecutionInformation
pub mod ExecutionMetadata
pub mod ExecutionError
pub mod TraceData
pub mod RoundTrip
