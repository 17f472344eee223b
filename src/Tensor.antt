-- ===== src/Tensor.antt =====
-- The messages of `hydrosphere.tensorflow` in tsclient/recstore-ts/src/compiled.js.
pub mod Dim
pub mod TensorShapeProto
pub mod VariantTensorDataProto
pub mod MapTensorData
pub mod TensorProto
pub mod Nested
pub mod RoundTrip
pub mod Unpacked
