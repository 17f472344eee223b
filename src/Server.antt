-- ===== src/Server.antt =====
-- The server, src/ of the repository, as far as it makes the bytes that the client reads.
pub mod GetRange
pub mod Key
pub mod IdComparator
pub mod Cursor
pub mod Iter
pub mod GenerateId
pub mod Save
pub mod Subsampling
