-- ===== src/Serving/RoundTrip.antt =====
-- `encode` and `decode`, `encodeDelimited` and `decodeDelimited` of the messages that a model serves,
-- in tsclient/recstore-ts/src/compiled.js, with tensors nested `n` deep at most inside.
use timemachine.Base.{ℕ, ◌≤◌, ◌≡◌, Option, none, some, List, [], ◌++◌, length}
use timemachine.Protobuf.Outcome.{ok}
use timemachine.Protobuf.Runtime.{Runtime, Reader, IsUint32}
use timemachine.Protobuf.Codec.{Codec}
use timemachine.Protobuf.Decoder.{buffer, reader, as_reader, IsPast, decode_message-IsPast}
use timemachine.Protobuf.Loop.{Ahead-ok}
use timemachine.Protobuf.RoundTrip.{
  finish, decode-encode, decode_delimited-encode_delimited, encode_delimited_used,
}
use timemachine.Protobuf.Writes.{sized}
use timemachine.Tensor.Nested.{Tensor, tensor_codec}
use timemachine.Serving.PredictRequest
use timemachine.Serving.PredictRequest.{PredictRequest}
use timemachine.Serving.PredictResponse
use timemachine.Serving.PredictResponse.{PredictResponse}

module _ (P : Runtime) where
  module _ (n : ℕ) where
    abbrev C : Codec P (Tensor n)
    C = tensor_codec P n

    -- The bytes that `PredictRequest.encode` writes to a writer of its own are decoded by
    -- `PredictRequest.decode` to the same message, up to their end, if the message's parts are in
    -- range, its keys are distinct and plain, and it is shorter than 2 ^ 32 bytes.
    pub decode-encode_predict_request :
        (m : PredictRequest (Tensor n))
        → PredictRequest.IsValid P C m
        → IsUint32 (length (PredictRequest.wire P C m))
        → PredictRequest.decode P C (buffer (finish P (PredictRequest.encode P C m none))) none
          ≡ ok (
            m,
            record { buf = PredictRequest.wire P C m; pos = length (PredictRequest.wire P C m) },
          )
    decode-encode_predict_request = decode-encode P (PredictRequest.codec P C)

    -- The bytes that `PredictResponse.encode` writes to a writer of its own are decoded by
    -- `PredictResponse.decode` to the same message, up to their end, if the message's parts are in
    -- range, its keys are distinct and plain, and it is shorter than 2 ^ 32 bytes.
    pub decode-encode_predict_response :
        (m : PredictResponse (Tensor n))
        → PredictResponse.IsValid P C m
        → IsUint32 (length (PredictResponse.wire P C m))
        → PredictResponse.decode P C (buffer (finish P (PredictResponse.encode P C m none))) none
          ≡ ok (
            m,
            record { buf = PredictResponse.wire P C m; pos = length (PredictResponse.wire P C m) },
          )
    decode-encode_predict_response = decode-encode P (PredictResponse.codec P C)

    -- What `PredictRequest.encodeDelimited` writes to a writer of its own is decoded by
    -- `PredictRequest.decodeDelimited` to the same message, and all of it is read, under the same
    -- conditions as in the plain form.
    pub decode_delimited-encode_delimited_predict_request :
        (m : PredictRequest (Tensor n))
        → PredictRequest.IsValid P C m
        → IsUint32 (length (PredictRequest.wire P C m))
        → let bytes = finish P (PredictRequest.encode_delimited P C m none) in
          PredictRequest.decode_delimited P C (buffer bytes)
          ≡ ok (m, record { buf = bytes; pos = length bytes })
    decode_delimited-encode_delimited_predict_request =
        decode_delimited-encode_delimited P (PredictRequest.codec P C)

    -- `PredictRequest.encodeDelimited` on a writer that holds bytes already, and that has nothing set
    -- aside, writes the length of those bytes and of the message together in front of them all: the
    -- earlier bytes become a part of what is delimited.
    pub encode_delimited_used_predict_request :
        (m : PredictRequest (Tensor n)) (w : P.Writer) (earlier : List ℕ)
        → PredictRequest.IsValid P C m
        → IsUint32 (length (earlier ++ PredictRequest.wire P C m))
        → P.buffers w ≡ record { written = earlier; saved = [] }
        → finish P (PredictRequest.encode_delimited P C m (some w))
          ≡ sized P (earlier ++ PredictRequest.wire P C m)
    encode_delimited_used_predict_request = encode_delimited_used P (PredictRequest.codec P C)

    -- A message that `PredictRequest.decode` of a reader returns was read to its end: the reader stands at
    -- the end of the length that is given, or of all bytes, or behind it, and never in front of where
    -- it was, on the same bytes.
    pub decode-IsPast_predict_request :
        (r : Reader) (len : Option ℕ) (m : PredictRequest (Tensor n)) (r' : Reader)
        → PredictRequest.decode P C (reader r) len ≡ ok (m, r')
        → (r'.buf ≡ r.buf) × (r.pos ≤ r'.pos) × IsPast r len r'
    unfolding as_reader
    decode-IsPast_predict_request r len m r' h =
        let (same, ahead) =
          Ahead-ok m r' ((PredictRequest.codec P C).decode-Ahead (reader r) len) h in
        (
          same,
          ahead,
          decode_message-IsPast P (PredictRequest.on_field P C) PredictRequest.empty r len m r' h,
        )
