-- ===== src/Index.antt =====
-- The client's own code, tsclient/recstore-ts/src/index.ts.
pub mod Bytes
pub mod ReqRes
pub mod TsRecords
