-- ===== src/Tensor/RoundTrip.antt =====
-- `encode` and `decode` of tensors and their shapes in tsclient/recstore-ts/src/compiled.js.
use timemachine.Base.{ℕ, ◌≡◌, ◌≢◌, suc, Option, none, length}
use timemachine.Protobuf.Outcome.{ok, stuck}
use timemachine.Protobuf.Runtime.{Runtime, IsUint32}
use timemachine.Protobuf.Codec.{Codec}
use timemachine.Protobuf.Decoder.{Source, buffer}
use timemachine.Protobuf.RoundTrip.{finish, decode-encode, decode-ne-stuck}
use timemachine.Tensor.Nested.{Tensor, tensor_codec}
use timemachine.Tensor.TensorProto
use timemachine.Tensor.TensorProto.Laws

module _ (P : Runtime) where
  module _ (n : ℕ) where
    abbrev C : Codec P (Tensor n)
    C = tensor_codec P n

    -- The bytes that `TensorProto.encode` writes to a writer of its own, for a tensor with tensors
    -- nested `n + 1` deep at most, are decoded by `TensorProto.decode` to the same tensor, up to
    -- their end, if its seventeen fields are in range and it is shorter than 2 ^ 32 bytes.
    pub decode-encode_tensor :
        (m : Tensor (suc n))
        → TensorProto.IsValid P C m
        → IsUint32 (length (TensorProto.wire P C m))
        → TensorProto.decode P C (buffer (finish P (TensorProto.encode P C m none))) none
          ≡ ok (m, record { buf = TensorProto.wire P C m; pos = length (TensorProto.wire P C m) })
    decode-encode_tensor = decode-encode P (Laws.codec P C)

    -- `TensorProto.decode`, given any reader or bytes and any length, returns or throws, however the
    -- tensors in the bytes are nested: where there is no room for another call, it throws.
    pub decode-ne-stuck_tensor :
        (source : Source) (len : Option ℕ) → TensorProto.decode P C source len ≢ stuck
    decode-ne-stuck_tensor = decode-ne-stuck P (Laws.codec P C)
