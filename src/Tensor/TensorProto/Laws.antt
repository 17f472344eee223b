-- ===== src/Tensor/TensorProto/Laws.antt =====
-- What `encode` of TensorProto writes, and that its switch reads it back.
use timemachine.Base.{ℕ, ◌/◌, ◌≡◌, refl, [], none, some, length, lengths, ◌==◌, arith}
use timemachine.Protobuf.Runtime.{Runtime, Reader, IsUint32}
use timemachine.Protobuf.Loop.{Ahead, Ahead-if, Ahead-read}
use timemachine.Protobuf.Writes.{Writes, Writes-append}
use timemachine.Protobuf.Decoder.{Consumes, Consumes-append}
use timemachine.Protobuf.Codec.{Codec, read_sized-Ahead}
use timemachine.Protobuf.Message.{Ahead-store, Ahead-skip_field}
use timemachine.Protobuf.Optional.{
  Writes-scalar, Consumes-scalar_field, Writes-message_field, Consumes-message_field,
}
use timemachine.Protobuf.Repeated.{Writes-messages, Consumes-messages}
use timemachine.Protobuf.Packed.{read_packed-Ahead, Writes-packed, Consumes-packed}
use timemachine.Protobuf.ScalarList.{Writes-scalars, Consumes-scalars}
use timemachine.Protobuf.Build.{Parts, codec_of}
use timemachine.Tensor.TensorShapeProto
use timemachine.Tensor.TensorShapeProto.{TensorShapeProto}
use timemachine.Tensor.VariantTensorDataProto
use timemachine.Tensor.VariantTensorDataProto.{VariantTensorDataProto}
use timemachine.Tensor.MapTensorData
use timemachine.Tensor.MapTensorData.{MapTensorData}
use timemachine.Tensor.TensorProto.{TensorProto, empty, IsValid, encode, on_field, wire}

module _ (P : Runtime) {A : Type 0} (C : Codec P A) where
  pub on_field-Ahead : (m : TensorProto A) (tag : ℕ) (r : Reader) → Ahead r (on_field P C m tag r)
  unfolding on_field
  on_field-Ahead m tag r = Ahead-if (tag / 8 == 1) (Ahead-store _ _ (Ahead-read P P.int32 r)) (
      Ahead-if (tag / 8 == 2) (Ahead-store _ _ (read_sized-Ahead P (TensorShapeProto.codec P) r)) (
        Ahead-if (tag / 8 == 3) (Ahead-store _ _ (Ahead-read P P.int32 r)) (
          Ahead-if (tag / 8 == 4) (Ahead-store _ _ (Ahead-read P P.bytes r)) (
            Ahead-if (tag / 8 == 13)
              (Ahead-store _ _ (read_packed-Ahead P P.int32 tag m.half_val r))
              (Ahead-if (tag / 8 == 5)
                (Ahead-store _ _ (read_packed-Ahead P P.float tag m.float_val r))
                (Ahead-if (tag / 8 == 6)
                  (Ahead-store _ _ (read_packed-Ahead P P.double tag m.double_val r))
                  (Ahead-if (tag / 8 == 7)
                    (Ahead-store _ _ (read_packed-Ahead P P.int32 tag m.int_val r))
                    (Ahead-if (tag / 8 == 8) (Ahead-store _ _ (Ahead-read P P.bytes r)) (
                      Ahead-if (tag / 8 == 9)
                        (Ahead-store _ _ (read_packed-Ahead P P.float tag m.scomplex_val r))
                        (Ahead-if (tag / 8 == 10)
                          (Ahead-store _ _ (read_packed-Ahead P P.int64 tag m.int64_val r))
                          (Ahead-if (tag / 8 == 11)
                            (Ahead-store _ _ (read_packed-Ahead P P.bool tag m.bool_val r))
                            (Ahead-if (tag / 8 == 12)
                              (Ahead-store _ _ (read_packed-Ahead P P.double tag m.dcomplex_val r))
                              (Ahead-if (tag / 8 == 15)
                                (Ahead-store _ _
                                  (read_sized-Ahead P (VariantTensorDataProto.codec P C) r))
                                (Ahead-if (tag / 8 == 16)
                                  (Ahead-store _ _
                                    (read_packed-Ahead P P.uint32 tag m.uint32_val r))
                                  (Ahead-if (tag / 8 == 17)
                                    (Ahead-store _ _
                                      (read_packed-Ahead P P.uint64 tag m.uint64_val r))
                                    (Ahead-if (tag / 8 == 27)
                                      (Ahead-store _ _
                                        (read_sized-Ahead P (MapTensorData.codec P C) r))
                                      (Ahead-skip_field P m tag r)))))))))))))))))

  pub encode_fresh : (m : TensorProto A) → encode P C m none ≡ encode P C m (some P.create_writer)
  unfolding encode
  encode_fresh m = refl

  pub encode-Writes :
      (m : TensorProto A) (w : P.Writer)
      → IsValid P C m
      → IsUint32 (length (wire P C m))
      → Writes P w (encode P C m (some w)) (wire P C m)
  unfolding encode
  encode-Writes m w (v₁, v₂, v₃, v₄, v₅, v₆, v₇, v₈, v₉, v₁₀, v₁₁, v₁₂, v₁₃, v₁₄, v₁₅, v₁₆, v₁₇)
        short =
      Writes-append P w _ _ _ _ (Writes-scalar P P.int32 w 8 m.dtype (omega arith) v₁) (
        Writes-append P _ _ _ _ _
          (Writes-message_field P (TensorShapeProto.codec P) _ 18 m.tensor_shape (omega arith) v₂
            (omega lengths))
          (Writes-append P _ _ _ _ _
            (Writes-scalar P P.int32 _ 24 m.version_number (omega arith) v₃)
            (Writes-append P _ _ _ _ _
              (Writes-scalar P P.bytes _ 34 m.tensor_content (omega arith) v₄)
              (Writes-append P _ _ _ _ _
                (Writes-packed P P.float 42 m.float_val _ (omega arith) v₅ (omega lengths))
                (Writes-append P _ _ _ _ _
                  (Writes-packed P P.double 50 m.double_val _ (omega arith) v₆ (omega lengths))
                  (Writes-append P _ _ _ _ _
                    (Writes-packed P P.int32 58 m.int_val _ (omega arith) v₇ (omega lengths))
                    (Writes-append P _ _ _ _ _
                      (Writes-scalars P P.bytes 66 m.string_val _ (omega arith) v₈)
                      (Writes-append P _ _ _ _ _
                        (Writes-packed P P.float 74 m.scomplex_val _ (omega arith) v₉
                          (omega lengths))
                        (Writes-append P _ _ _ _ _
                          (Writes-packed P P.int64 82 m.int64_val _ (omega arith) v₁₀
                            (omega lengths))
                          (Writes-append P _ _ _ _ _
                            (Writes-packed P P.bool 90 m.bool_val _ (omega arith) v₁₁
                              (omega lengths))
                            (Writes-append P _ _ _ _ _
                              (Writes-packed P P.double 98 m.dcomplex_val _ (omega arith) v₁₂
                                (omega lengths))
                              (Writes-append P _ _ _ _ _
                                (Writes-packed P P.int32 106 m.half_val _ (omega arith) v₁₃
                                  (omega lengths))
                                (Writes-append P _ _ _ _ _
                                  (Writes-messages P (VariantTensorDataProto.codec P C) 122
                                    m.variant_val _ (omega arith) v₁₄ (omega lengths))
                                  (Writes-append P _ _ _ _ _
                                    (Writes-packed P P.uint32 130 m.uint32_val _ (omega arith) v₁₅
                                      (omega lengths))
                                    (Writes-append P _ _ _ _ _
                                      (Writes-packed P P.uint64 138 m.uint64_val _ (omega arith) v₁₆
                                        (omega lengths))
                                      (Writes-messages P (MapTensorData.codec P C) 218 m.map_val _
                                        (omega arith) v₁₇ (omega lengths)))))))))))))))))

  -- The message as far as it has been read after each of its fields.
  abbrev part₁ : TensorProto A → TensorProto A
  part₁ m = record empty { dtype = m.dtype }

  abbrev part₂ : TensorProto A → TensorProto A
  part₂ m = record (part₁ m) { tensor_shape = m.tensor_shape }

  abbrev part₃ : TensorProto A → TensorProto A
  part₃ m = record (part₂ m) { version_number = m.version_number }

  abbrev part₄ : TensorProto A → TensorProto A
  part₄ m = record (part₃ m) { tensor_content = m.tensor_content }

  abbrev part₅ : TensorProto A → TensorProto A
  part₅ m = record (part₄ m) { float_val = m.float_val }

  abbrev part₆ : TensorProto A → TensorProto A
  part₆ m = record (part₅ m) { double_val = m.double_val }

  abbrev part₇ : TensorProto A → TensorProto A
  part₇ m = record (part₆ m) { int_val = m.int_val }

  abbrev part₈ : TensorProto A → TensorProto A
  part₈ m = record (part₇ m) { string_val = m.string_val }

  abbrev part₉ : TensorProto A → TensorProto A
  part₉ m = record (part₈ m) { scomplex_val = m.scomplex_val }

  abbrev part₁₀ : TensorProto A → TensorProto A
  part₁₀ m = record (part₉ m) { int64_val = m.int64_val }

  abbrev part₁₁ : TensorProto A → TensorProto A
  part₁₁ m = record (part₁₀ m) { bool_val = m.bool_val }

  abbrev part₁₂ : TensorProto A → TensorProto A
  part₁₂ m = record (part₁₁ m) { dcomplex_val = m.dcomplex_val }

  abbrev part₁₃ : TensorProto A → TensorProto A
  part₁₃ m = record (part₁₂ m) { half_val = m.half_val }

  abbrev part₁₄ : TensorProto A → TensorProto A
  part₁₄ m = record (part₁₃ m) { variant_val = m.variant_val }

  abbrev part₁₅ : TensorProto A → TensorProto A
  part₁₅ m = record (part₁₄ m) { uint32_val = m.uint32_val }

  abbrev part₁₆ : TensorProto A → TensorProto A
  part₁₆ m = record (part₁₅ m) { uint64_val = m.uint64_val }

  pub wire-Consumes :
      (m : TensorProto A)
      → IsValid P C m
      → IsUint32 (length (wire P C m))
      → Consumes P (on_field P C) empty (wire P C m) m
  unfolding on_field
  wire-Consumes m (v₁, v₂, v₃, v₄, v₅, v₆, v₇, v₈, v₉, v₁₀, v₁₁, v₁₂, v₁₃, v₁₄, v₁₅, v₁₆, v₁₇)
        short =
      Consumes-append P (on_field P C) _ _
        (Consumes-scalar_field P P.int32 (on_field P C) (λ o. record empty { dtype = o }) 8 m.dtype
          (omega arith) v₁ (λ r. refl))
        (Consumes-append P (on_field P C) _ _
          (Consumes-message_field P (TensorShapeProto.codec P) (on_field P C)
            (λ o. record (part₁ m) { tensor_shape = o }) 18 m.tensor_shape (omega arith) v₂
            (omega lengths) (λ r. refl))
          (Consumes-append P (on_field P C) _ _
            (Consumes-scalar_field P P.int32 (on_field P C)
              (λ o. record (part₂ m) { version_number = o }) 24 m.version_number (omega arith) v₃
              (λ r. refl))
            (Consumes-append P (on_field P C) _ _
              (Consumes-scalar_field P P.bytes (on_field P C)
                (λ o. record (part₃ m) { tensor_content = o }) 34 m.tensor_content (omega arith) v₄
                (λ r. refl))
              (Consumes-append P (on_field P C) _ _
                (Consumes-packed P P.float (on_field P C) (λ o. record (part₄ m) { float_val = o })
                  42 m.float_val (omega arith) refl v₅ (omega lengths) (λ r. refl))
                (Consumes-append P (on_field P C) _ _
                  (Consumes-packed P P.double (on_field P C)
                    (λ o. record (part₅ m) { double_val = o }) 50 m.double_val (omega arith) refl v₆
                    (omega lengths) (λ r. refl))
                  (Consumes-append P (on_field P C) _ _
                    (Consumes-packed P P.int32 (on_field P C)
                      (λ o. record (part₆ m) { int_val = o }) 58 m.int_val (omega arith) refl v₇
                      (omega lengths) (λ r. refl))
                    (Consumes-append P (on_field P C) _ _
                      (Consumes-scalars P P.bytes (on_field P C)
                        (λ o. record (part₇ m) { string_val = o }) 66 [] m.string_val (omega arith)
                        v₈ (λ done r. refl))
                      (Consumes-append P (on_field P C) _ _
                        (Consumes-packed P P.float (on_field P C)
                          (λ o. record (part₈ m) { scomplex_val = o }) 74 m.scomplex_val
                          (omega arith) refl v₉ (omega lengths) (λ r. refl))
                        (Consumes-append P (on_field P C) _ _
                          (Consumes-packed P P.int64 (on_field P C)
                            (λ o. record (part₉ m) { int64_val = o }) 82 m.int64_val (omega arith)
                            refl v₁₀ (omega lengths) (λ r. refl))
                          (Consumes-append P (on_field P C) _ _
                            (Consumes-packed P P.bool (on_field P C)
                              (λ o. record (part₁₀ m) { bool_val = o }) 90 m.bool_val (omega arith)
                              refl v₁₁ (omega lengths) (λ r. refl))
                            (Consumes-append P (on_field P C) _ _
                              (Consumes-packed P P.double (on_field P C)
                                (λ o. record (part₁₁ m) { dcomplex_val = o }) 98 m.dcomplex_val
                                (omega arith) refl v₁₂ (omega lengths) (λ r. refl))
                              (Consumes-append P (on_field P C) _ _
                                (Consumes-packed P P.int32 (on_field P C)
                                  (λ o. record (part₁₂ m) { half_val = o }) 106 m.half_val
                                  (omega arith) refl v₁₃ (omega lengths) (λ r. refl))
                                (Consumes-append P (on_field P C) _ _
                                  (Consumes-messages P (VariantTensorDataProto.codec P C)
                                    (on_field P C) (λ o. record (part₁₃ m) { variant_val = o }) 122
                                    [] m.variant_val (omega arith) v₁₄ (omega lengths)
                                    (λ done r. refl))
                                  (Consumes-append P (on_field P C) _ _
                                    (Consumes-packed P P.uint32 (on_field P C)
                                      (λ o. record (part₁₄ m) { uint32_val = o }) 130 m.uint32_val
                                      (omega arith) refl v₁₅ (omega lengths) (λ r. refl))
                                    (Consumes-append P (on_field P C) _ _
                                      (Consumes-packed P P.uint64 (on_field P C)
                                        (λ o. record (part₁₅ m) { uint64_val = o }) 138 m.uint64_val
                                        (omega arith) refl v₁₆ (omega lengths) (λ r. refl))
                                      (Consumes-messages P (MapTensorData.codec P C) (on_field P C)
                                        (λ o. record (part₁₆ m) { map_val = o }) 218 [] m.map_val
                                        (omega arith) v₁₇ (omega lengths)
                                        (λ done r. refl)))))))))))))))))

  abbrev pub parts : Parts P (TensorProto A)
  parts = record {
    empty = empty;
    on_field = on_field P C;
    encode = encode P C;
    IsValid = IsValid P C;
    wire = wire P C;
    on_field-Ahead = on_field-Ahead;
    encode_fresh = encode_fresh;
    encode-Writes = encode-Writes;
    wire-Consumes = wire-Consumes;
  }

  abbrev pub codec : Codec P (TensorProto A)
  codec = codec_of P parts
