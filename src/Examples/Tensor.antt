-- ===== src/Examples/Tensor.antt =====
-- The results on tensors and on the monitoring messages.
use timemachine.Base.{◌-◌, ◌^◌, ◌≡◌, ◌≢◌, ℤ, List, [], ◌∷◌, ◌++◌, true, none, some, length, arith}
use timemachine.Protobuf.Outcome.{ok, stuck}
use timemachine.Protobuf.Decoder.{buffer}
use timemachine.Protobuf.RoundTrip.{finish}
use timemachine.Protobuf.ScalarList.{wire_scalars}
use timemachine.Sample.Runtime.{runtime}
use timemachine.Protobuf.Codec.{Codec}
use timemachine.Tensor.Nested.{Tensor, tensor_codec}
use timemachine.Tensor.TensorProto
use timemachine.Tensor.TensorProto.{TensorProto}
use timemachine.Tensor.TensorShapeProto.{TensorShapeProto}
use timemachine.Tensor.RoundTrip.{decode-encode_tensor, decode-ne-stuck_tensor}
use timemachine.Tensor.Unpacked.{decode_unpacked-encode_tensor}
use timemachine.Examples.Messages.{name, nested, nested-IsValid, nested-short}

abbrev C : Codec runtime (Tensor 0)
C = tensor_codec runtime 0

decode-encode_tensor_example :
    TensorProto.decode runtime C
      (buffer (finish runtime (TensorProto.encode runtime C nested none)))
      none
    ≡ ok (
      nested,
      record {
        buf = TensorProto.wire runtime C nested;
        pos = length (TensorProto.wire runtime C nested);
      },
    )
decode-encode_tensor_example =
    decode-encode_tensor runtime 0 nested nested-IsValid (omega (arith, nested-short))

decode-ne-stuck_tensor_example :
    TensorProto.decode runtime C (buffer (122 ∷ 200 ∷ 1 ∷ [])) (some 9) ≢ stuck
decode-ne-stuck_tensor_example =
    decode-ne-stuck_tensor runtime 0 (buffer (122 ∷ 200 ∷ 1 ∷ [])) (some 9)

abbrev shape : TensorShapeProto
shape = record {
  dim =
      record { size = some (2 ^ 64 - 1); name = none }
      ∷ record { size = some 3; name = some name }
      ∷ [];
  unknown_rank = some true;
}

abbrev numbers : List ℤ
numbers = ℤ.negsuc 0 ∷ ℤ.pos 300 ∷ []

decode_unpacked-encode_tensor_example :
    let bytes =
      finish runtime (TensorProto.encode runtime C nested none)
      ++ wire_scalars runtime runtime.int32 56 numbers in
    TensorProto.decode runtime C (buffer bytes) none
    ≡ ok (record nested { int_val = numbers }, record { buf = bytes; pos = length bytes })
decode_unpacked-encode_tensor_example =
    decode_unpacked-encode_tensor runtime C nested numbers nested-IsValid
      (omega (arith, nested-short)) (omega arith, (omega arith, _))
