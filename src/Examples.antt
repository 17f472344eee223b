-- ===== src/Examples.antt =====
-- Concrete messages and bytes, on which each result with conditions is applied.
pub mod Messages
pub mod Serving
pub mod Tensor
pub mod Index
pub mod Information
pub mod Store
pub mod Convert
pub mod Save
pub mod Subsampling
