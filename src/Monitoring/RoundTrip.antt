-- ===== src/Monitoring/RoundTrip.antt =====
-- `encode` and `decode` of `ExecutionInformation` in tsclient/recstore-ts/src/compiled.js.
use timemachine.Base.{ℕ, ◌≡◌, none, length}
use timemachine.Protobuf.Outcome.{ok}
use timemachine.Protobuf.Runtime.{Runtime, IsUint32}
use timemachine.Protobuf.Decoder.{buffer}
use timemachine.Protobuf.Codec.{Codec}
use timemachine.Protobuf.RoundTrip.{finish, decode-encode}
use timemachine.Tensor.Nested.{Tensor, tensor_codec}
use timemachine.Monitoring.ExecutionInformation
use timemachine.Monitoring.ExecutionInformation.{ExecutionInformation}

module _ (P : Runtime) (n : ℕ) where
  abbrev C : Codec P (Tensor n)
  C = tensor_codec P n

  -- The bytes that `ExecutionInformation.encode` writes to a writer of its own are decoded by
  -- `ExecutionInformation.decode` to the same message, with its request, its error or response and its
  -- metadata, up to their end, if the parts are in range, the keys of each map are distinct and plain,
  -- and the message is shorter than 2 ^ 32 bytes.
  pub decode-encode_execution_information :
      (m : ExecutionInformation (Tensor n))
      → ExecutionInformation.IsValid P C m
      → IsUint32 (length (ExecutionInformation.wire P C m))
      → ExecutionInformation.decode P C
          (buffer (finish P (ExecutionInformation.encode P C m none)))
          none
        ≡ ok (
          m,
          record {
            buf = ExecutionInformation.wire P C m;
            pos = length (ExecutionInformation.wire P C m);
          },
        )
  decode-encode_execution_information = decode-encode P (ExecutionInformation.codec P C)
