-- ===== src/Serving.antt =====
-- The messages of `hydrosphere.tensorflow.serving` in tsclient/recstore-ts/src/compiled.js.
pub mod ModelSpec
pub mod PredictRequest
pub mod PredictResponse
pub mod RoundTrip
pub mod Unknown
pub mod Merge
