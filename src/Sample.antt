-- ===== src/Sample.antt =====
-- A runtime that keeps every promise of Protobuf/Runtime.antt, to run the code on. Its varints are
-- those of the format; a string is its length and its code units, and a signed number a varint of
-- twice it, or of twice the opposite less one.
pub mod Format
pub mod Runtime
pub mod Buffers
pub mod Longs
pub mod Cursors
pub mod Database
