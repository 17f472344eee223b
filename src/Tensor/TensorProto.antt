-- ===== src/Tensor/TensorProto.antt =====
-- `hydrosphere.tensorflow.TensorProto` of tsclient/recstore-ts/src/compiled.js.
-- `A` is the type of the tensors inside, and `C` their codec: Tensor/Nested.antt ties the knot.
pub mod Laws
use timemachine.Base.{
  ℕ, ℤ, ◌/◌, ◌+◌, ◌<◌, ◌^◌, ◌≡◌, refl, ◌++◌, List, [], Option, none, some, Bool, length, All,
  lengths, if◌then◌else◌, ◌==◌, arith,
}
use timemachine.JsObject.{DistinctFrom}
use timemachine.Protobuf.Outcome.{Text, Result, attempt}
use timemachine.Protobuf.Runtime.{
  Runtime, Reader, IsUint32, IsInt32, IsText, IsLong, AnyBool, IsBytes,
}
use timemachine.Protobuf.Loop.{Ahead, Ahead-if, Ahead-read}
use timemachine.Protobuf.Writes.{Writes, Writes-append}
use timemachine.Protobuf.Decoder.{Source, Consumes, Consumes-append, decode_message, read_sized}
use timemachine.Protobuf.Codec.{
  Codec, or_create, encode_delimited_by, decode_delimited_by, read_sized-Ahead,
}
use timemachine.Protobuf.Message.{store, Ahead-store, skip_field, Ahead-skip_field}
use timemachine.Protobuf.Optional.{
  InOption, put_scalar, wire_scalar, Writes-scalar, Consumes-scalar_field, put_message,
  wire_message, Writes-message_field, Consumes-message_field,
}
use timemachine.Protobuf.Repeated.{
  put_messages, wire_messages, append_item, Writes-messages, Consumes-messages,
}
use timemachine.Protobuf.Packed.{
  put_packed, wire_packed, read_packed, read_packed-Ahead, Writes-packed, Consumes-packed,
}
use timemachine.Protobuf.ScalarList.{put_scalars, wire_scalars, Writes-scalars, Consumes-scalars}
use timemachine.Protobuf.MapField.{
  put_entries, wire_entries, read_entry, set_entry, IsEntry, read_entry-Ahead, Writes-entries,
  Consumes-entries,
}
use timemachine.Protobuf.Build.{Parts, codec_of}
use timemachine.Tensor.TensorShapeProto
use timemachine.Tensor.TensorShapeProto.{TensorShapeProto}
use timemachine.Tensor.VariantTensorDataProto
use timemachine.Tensor.VariantTensorDataProto.{VariantTensorDataProto}
use timemachine.Tensor.MapTensorData
use timemachine.Tensor.MapTensorData.{MapTensorData}

-- An own property that is not null is `some`; `none` reads as the prototype's default.
pub record TensorProto (A : Type 0) : Type 0 where
  pub dtype : Option ℤ
  pub tensor_shape : Option TensorShapeProto
  pub version_number : Option ℤ
  pub tensor_content : Option (List ℕ)
  pub float_val : List ℕ
  pub double_val : List ℕ
  pub int_val : List ℤ
  pub string_val : List (List ℕ)
  pub scomplex_val : List ℕ
  pub int64_val : List ℕ
  pub bool_val : List Bool
  pub dcomplex_val : List ℕ
  pub half_val : List ℤ
  pub variant_val : List (VariantTensorDataProto A)
  pub uint32_val : List ℕ
  pub uint64_val : List ℕ
  pub map_val : List (MapTensorData A)

-- `new TensorProto()`
abbrev pub empty : {A : Type 0} → TensorProto A
empty = record {
  dtype = none;
  tensor_shape = none;
  version_number = none;
  tensor_content = none;
  float_val = [];
  double_val = [];
  int_val = [];
  string_val = [];
  scomplex_val = [];
  int64_val = [];
  bool_val = [];
  dcomplex_val = [];
  half_val = [];
  variant_val = [];
  uint32_val = [];
  uint64_val = [];
  map_val = [];
}

module _ (P : Runtime) {A : Type 0} (C : Codec P A) where
  abbrev pub IsValid : TensorProto A → Type 0
  IsValid message =
      InOption IsInt32 message.dtype
      × InOption TensorShapeProto.IsValid message.tensor_shape
      × InOption IsInt32 message.version_number
      × InOption IsBytes message.tensor_content
      × All IsUint32 message.float_val
      × All IsLong message.double_val
      × All IsInt32 message.int_val
      × All IsBytes message.string_val
      × All IsUint32 message.scomplex_val
      × All IsLong message.int64_val
      × All AnyBool message.bool_val
      × All IsLong message.dcomplex_val
      × All IsInt32 message.half_val
      × All (VariantTensorDataProto.IsValid P C) message.variant_val
      × All IsUint32 message.uint32_val
      × All IsLong message.uint64_val
      × All (MapTensorData.IsValid P C) message.map_val

  unfoldable pub encode : TensorProto A → Option P.Writer → P.Writer
  encode message writer =
      let w₀ = or_create P writer in
      let w₁ = put_scalar P P.int32 8 message.dtype w₀ in
      let w₂ = put_message P (TensorShapeProto.codec P) 18 message.tensor_shape w₁ in
      let w₃ = put_scalar P P.int32 24 message.version_number w₂ in
      let w₄ = put_scalar P P.bytes 34 message.tensor_content w₃ in
      let w₅ = put_packed P P.float 42 message.float_val w₄ in
      let w₆ = put_packed P P.double 50 message.double_val w₅ in
      let w₇ = put_packed P P.int32 58 message.int_val w₆ in
      let w₈ = put_scalars P P.bytes 66 message.string_val w₇ in
      let w₉ = put_packed P P.float 74 message.scomplex_val w₈ in
      let w₁₀ = put_packed P P.int64 82 message.int64_val w₉ in
      let w₁₁ = put_packed P P.bool 90 message.bool_val w₁₀ in
      let w₁₂ = put_packed P P.double 98 message.dcomplex_val w₁₁ in
      let w₁₃ = put_packed P P.int32 106 message.half_val w₁₂ in
      let w₁₄ = put_messages P (VariantTensorDataProto.codec P C) 122 message.variant_val w₁₃ in
      let w₁₅ = put_packed P P.uint32 130 message.uint32_val w₁₄ in
      let w₁₆ = put_packed P P.uint64 138 message.uint64_val w₁₅ in
      put_messages P (MapTensorData.codec P C) 218 message.map_val w₁₆

  -- `switch (tag >>> 3)`
  unfoldable pub on_field : TensorProto A → ℕ → Reader → Result (TensorProto A × Reader)
  on_field message tag r =
      if tag / 8 == 1
      then store (attempt (P.int32.read r)) (λ v. record message { dtype = some v })
      else if tag / 8 == 2
      then store (read_sized P (TensorShapeProto.decode P) r)
          (λ v. record message { tensor_shape = some v })
      else if tag / 8 == 3
      then store (attempt (P.int32.read r)) (λ v. record message { version_number = some v })
      else if tag / 8 == 4
      then store (attempt (P.bytes.read r)) (λ v. record message { tensor_content = some v })
      else if tag / 8 == 13
      then store (read_packed P P.int32 tag message.half_val r)
          (λ v. record message { half_val = v })
      else if tag / 8 == 5
      then store (read_packed P P.float tag message.float_val r)
          (λ v. record message { float_val = v })
      else if tag / 8 == 6
      then store (read_packed P P.double tag message.double_val r)
          (λ v. record message { double_val = v })
      else if tag / 8 == 7
      then store (read_packed P P.int32 tag message.int_val r) (λ v. record message { int_val = v })
      else if tag / 8 == 8
      then store (attempt (P.bytes.read r))
          (λ v. record message { string_val = append_item message.string_val v })
      else if tag / 8 == 9
      then store (read_packed P P.float tag message.scomplex_val r)
          (λ v. record message { scomplex_val = v })
      else if tag / 8 == 10
      then store (read_packed P P.int64 tag message.int64_val r)
          (λ v. record message { int64_val = v })
      else if tag / 8 == 11
      then store (read_packed P P.bool tag message.bool_val r)
          (λ v. record message { bool_val = v })
      else if tag / 8 == 12
      then store (read_packed P P.double tag message.dcomplex_val r)
          (λ v. record message { dcomplex_val = v })
      else if tag / 8 == 15
      then store (read_sized P (VariantTensorDataProto.decode P C) r)
          (λ v. record message { variant_val = append_item message.variant_val v })
      else if tag / 8 == 16
      then store (read_packed P P.uint32 tag message.uint32_val r)
          (λ v. record message { uint32_val = v })
      else if tag / 8 == 17
      then store (read_packed P P.uint64 tag message.uint64_val r)
          (λ v. record message { uint64_val = v })
      else if tag / 8 == 27
      then store (read_sized P (MapTensorData.decode P C) r)
          (λ v. record message { map_val = append_item message.map_val v })
      else skip_field P message tag r

  abbrev pub decode : Source → Option ℕ → Result (TensorProto A × Reader)
  decode = decode_message P empty on_field

  abbrev pub encode_delimited : TensorProto A → Option P.Writer → P.Writer
  encode_delimited = encode_delimited_by P encode

  abbrev pub decode_delimited : Source → Result (TensorProto A × Reader)
  decode_delimited = decode_delimited_by P decode

  -- The bytes of a message.
  abbrev pub wire : TensorProto A → List ℕ
  wire message =
      wire_scalar P P.int32 8 message.dtype
      ++ (wire_message P (TensorShapeProto.codec P) 18 message.tensor_shape
          ++ (wire_scalar P P.int32 24 message.version_number
              ++ (wire_scalar P P.bytes 34 message.tensor_content
                  ++ (wire_packed P P.float 42 message.float_val
                      ++ (wire_packed P P.double 50 message.double_val
                          ++ (wire_packed P P.int32 58 message.int_val
                              ++ (wire_scalars P P.bytes 66 message.string_val
                                  ++ (wire_packed P P.float 74 message.scomplex_val
                                      ++ (wire_packed P P.int64 82 message.int64_val
                                          ++ (wire_packed P P.bool 90 message.bool_val
                                              ++ (wire_packed P P.double 98 message.dcomplex_val
                                                  ++ (wire_packed P P.int32 106 message.half_val
                                                      ++ (wire_messages P
                                                            (VariantTensorDataProto.codec P C) 122
                                                            message.variant_val
                                                          ++ (wire_packed P P.uint32 130
                                                            message.uint32_val
                                                            ++ (wire_packed P P.uint64 138
                                                            message.uint64_val
                                                            ++ (wire_messages P
                                                            (MapTensorData.codec P C) 218
                                                            message.map_val))))))))))))))))
