-- ===== src/Tensor/VariantTensorDataProto.antt =====
-- `hydrosphere.tensorflow.VariantTensorDataProto` of tsclient/recstore-ts/src/compiled.js.
-- `A` is the type of the tensors inside, and `C` their codec: Tensor/Nested.antt ties the knot.
use timemachine.Base.{
  ℕ, ◌/◌, ◌≡◌, refl, ◌++◌, List, [], Option, none, some, length, All, lengths, if◌then◌else◌, ◌==◌,
  arith,
}
use timemachine.Protobuf.Outcome.{Text, Result, attempt}
use timemachine.Protobuf.Runtime.{Runtime, Reader, IsUint32, IsText, IsBytes}
use timemachine.Protobuf.Loop.{Ahead, Ahead-if, Ahead-read}
use timemachine.Protobuf.Writes.{Writes, Writes-append}
use timemachine.Protobuf.Decoder.{Source, Consumes, Consumes-append, decode_message, read_sized}
use timemachine.Protobuf.Codec.{
  Codec, or_create, encode_delimited_by, decode_delimited_by, read_sized-Ahead,
}
use timemachine.Protobuf.Message.{store, Ahead-store, skip_field, Ahead-skip_field}
use timemachine.Protobuf.Optional.{
  InOption, put_scalar, wire_scalar, Writes-scalar, Consumes-scalar_field,
}
use timemachine.Protobuf.Repeated.{
  put_messages, wire_messages, append_item, Writes-messages, Consumes-messages,
}
use timemachine.Protobuf.Build.{Parts, codec_of}

-- An own property that is not null is `some`; `none` reads as the prototype's default.
pub record VariantTensorDataProto (A : Type 0) : Type 0 where
  pub type_name : Option Text
  pub metadata : Option (List ℕ)
  pub tensors : List A

-- `new VariantTensorDataProto()`
abbrev pub empty : {A : Type 0} → VariantTensorDataProto A
empty = record { type_name = none; metadata = none; tensors = [] }

module _ (P : Runtime) {A : Type 0} (C : Codec P A) where
  abbrev pub IsValid : VariantTensorDataProto A → Type 0
  IsValid message =
      InOption IsText message.type_name
      × InOption IsBytes message.metadata
      × All C.IsValid message.tensors

  unfoldable pub encode : VariantTensorDataProto A → Option P.Writer → P.Writer
  encode message writer =
      let w₀ = or_create P writer in
      let w₁ = put_scalar P P.string 10 message.type_name w₀ in
      let w₂ = put_scalar P P.bytes 18 message.metadata w₁ in put_messages P C 26 message.tensors w₂

  -- `switch (tag >>> 3)`
  unfoldable pub on_field :
      VariantTensorDataProto A → ℕ → Reader → Result (VariantTensorDataProto A × Reader)
  on_field message tag r =
      if tag / 8 == 1
      then store (attempt (P.string.read r)) (λ v. record message { type_name = some v })
      else if tag / 8 == 2
      then store (attempt (P.bytes.read r)) (λ v. record message { metadata = some v })
      else if tag / 8 == 3
      then store (read_sized P C.decode r)
          (λ v. record message { tensors = append_item message.tensors v })
      else skip_field P message tag r

  abbrev pub decode : Source → Option ℕ → Result (VariantTensorDataProto A × Reader)
  decode = decode_message P empty on_field

  abbrev pub encode_delimited : VariantTensorDataProto A → Option P.Writer → P.Writer
  encode_delimited = encode_delimited_by P encode

  abbrev pub decode_delimited : Source → Result (VariantTensorDataProto A × Reader)
  decode_delimited = decode_delimited_by P decode

  -- The bytes of a message.
  abbrev pub wire : VariantTensorDataProto A → List ℕ
  wire message =
      wire_scalar P P.string 10 message.type_name
      ++ (wire_scalar P P.bytes 18 message.metadata ++ (wire_messages P C 26 message.tensors))

  pub on_field-Ahead :
      (m : VariantTensorDataProto A) (tag : ℕ) (r : Reader) → Ahead r (on_field m tag r)
  unfolding on_field
  on_field-Ahead m tag r = Ahead-if (tag / 8 == 1) (Ahead-store _ _ (Ahead-read P P.string r)) (
      Ahead-if (tag / 8 == 2) (Ahead-store _ _ (Ahead-read P P.bytes r)) (
        Ahead-if (tag / 8 == 3) (Ahead-store _ _ (read_sized-Ahead P C r))
          (Ahead-skip_field P m tag r)))

  pub encode_fresh :
      (m : VariantTensorDataProto A) → encode m none ≡ encode m (some P.create_writer)
  unfolding encode
  encode_fresh m = refl

  pub encode-Writes :
      (m : VariantTensorDataProto A) (w : P.Writer)
      → IsValid m
      → IsUint32 (length (wire m))
      → Writes P w (encode m (some w)) (wire m)
  unfolding encode
  encode-Writes m w (v₁, v₂, v₃) short =
      Writes-append P w _ _ _ _ (Writes-scalar P P.string w 10 m.type_name (omega arith) v₁) (
        Writes-append P _ _ _ _ _ (Writes-scalar P P.bytes _ 18 m.metadata (omega arith) v₂)
          (Writes-messages P C 26 m.tensors _ (omega arith) v₃ (omega lengths)))

  pub wire-Consumes :
      (m : VariantTensorDataProto A)
      → IsValid m
      → IsUint32 (length (wire m))
      → Consumes P on_field empty (wire m) m
  unfolding on_field
  wire-Consumes m (v₁, v₂, v₃) short =
      Consumes-append P on_field _ _
        (Consumes-scalar_field P P.string on_field
          (λ o. record { type_name = o; metadata = none; tensors = [] }) 10 m.type_name
          (omega arith) v₁ (λ r. refl))
        (Consumes-append P on_field _ _
          (Consumes-scalar_field P P.bytes on_field
            (λ o. record { type_name = m.type_name; metadata = o; tensors = [] }) 18 m.metadata
            (omega arith) v₂ (λ r. refl))
          (Consumes-messages P C on_field
            (λ o. record { type_name = m.type_name; metadata = m.metadata; tensors = o }) 26 []
            m.tensors (omega arith) v₃ (omega lengths) (λ done r. refl)))

  abbrev pub parts : Parts P (VariantTensorDataProto A)
  parts = record {
    empty = empty;
    on_field = on_field;
    encode = encode;
    IsValid = IsValid;
    wire = wire;
    on_field-Ahead = on_field-Ahead;
    encode_fresh = encode_fresh;
    encode-Writes = encode-Writes;
    wire-Consumes = wire-Consumes;
  }

  abbrev pub codec : Codec P (VariantTensorDataProto A)
  codec = codec_of P parts
