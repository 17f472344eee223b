-- ===== src/Monitoring/ExecutionInformation.antt =====
-- `hydrosphere.monitoring.ExecutionInformation` of tsclient/recstore-ts/src/compiled.js.
-- `A` is the type of the tensors, and `C` their codec.
use timemachine.Base.{
  ℕ, ◌/◌, ◌≡◌, refl, ◌++◌, List, Option, none, some, length, lengths, if◌then◌else◌, ◌==◌, arith,
}
use timemachine.Protobuf.Outcome.{Result}
use timemachine.Protobuf.Runtime.{Runtime, Reader, IsUint32}
use timemachine.Protobuf.Loop.{Ahead, Ahead-if}
use timemachine.Protobuf.Writes.{Writes, Writes-append}
use timemachine.Protobuf.Decoder.{Source, Consumes, Consumes-append, decode_message, read_sized}
use timemachine.Protobuf.Codec.{
  Codec, or_create, encode_delimited_by, decode_delimited_by, read_sized-Ahead,
}
use timemachine.Protobuf.Message.{store, Ahead-store, skip_field, Ahead-skip_field}
use timemachine.Protobuf.Optional.{
  InOption, put_message, wire_message, Writes-message_field, Consumes-message_field,
}
use timemachine.Protobuf.Build.{Parts, codec_of}
use timemachine.Serving.PredictRequest
use timemachine.Serving.PredictRequest.{PredictRequest}
use timemachine.Serving.PredictResponse
use timemachine.Serving.PredictResponse.{PredictResponse}
use timemachine.Monitoring.ExecutionError
use timemachine.Monitoring.ExecutionError.{ExecutionError}
use timemachine.Monitoring.ExecutionMetadata
use timemachine.Monitoring.ExecutionMetadata.{ExecutionMetadata}

-- An own property that is not null is `some`; `none` reads as the prototype's default.
pub record ExecutionInformation (A : Type 0) : Type 0 where
  pub request : Option (PredictRequest A)
  pub error : Option ExecutionError
  pub response : Option (PredictResponse A)
  pub metadata : Option ExecutionMetadata

-- `new ExecutionInformation()`
abbrev pub empty : {A : Type 0} → ExecutionInformation A
empty = record { request = none; error = none; response = none; metadata = none }

module _ (P : Runtime) {A : Type 0} (C : Codec P A) where
  abbrev pub IsValid : ExecutionInformation A → Type 0
  IsValid message =
      InOption (PredictRequest.IsValid P C) message.request
      × InOption ExecutionError.IsValid message.error
      × InOption (PredictResponse.IsValid P C) message.response
      × InOption ExecutionMetadata.IsValid message.metadata

  unfoldable pub encode : ExecutionInformation A → Option P.Writer → P.Writer
  encode message writer =
      let w₀ = or_create P writer in
      let w₁ = put_message P (PredictRequest.codec P C) 10 message.request w₀ in
      let w₂ = put_message P (ExecutionError.codec P) 18 message.error w₁ in
      let w₃ = put_message P (PredictResponse.codec P C) 26 message.response w₂ in
      put_message P (ExecutionMetadata.codec P) 34 message.metadata w₃

  -- `switch (tag >>> 3)`
  unfoldable pub on_field :
      ExecutionInformation A → ℕ → Reader → Result (ExecutionInformation A × Reader)
  on_field message tag r =
      if tag / 8 == 1
      then store (read_sized P (PredictRequest.decode P C) r)
          (λ v. record message { request = some v })
      else if tag / 8 == 2
      then store (read_sized P (ExecutionError.decode P) r) (λ v. record message { error = some v })
      else if tag / 8 == 3
      then store (read_sized P (PredictResponse.decode P C) r)
          (λ v. record message { response = some v })
      else if tag / 8 == 4
      then store (read_sized P (ExecutionMetadata.decode P) r)
          (λ v. record message { metadata = some v })
      else skip_field P message tag r

  abbrev pub decode : Source → Option ℕ → Result (ExecutionInformation A × Reader)
  decode = decode_message P empty on_field

  abbrev pub encode_delimited : ExecutionInformation A → Option P.Writer → P.Writer
  encode_delimited = encode_delimited_by P encode

  abbrev pub decode_delimited : Source → Result (ExecutionInformation A × Reader)
  decode_delimited = decode_delimited_by P decode

  -- The bytes of a message.
  abbrev pub wire : ExecutionInformation A → List ℕ
  wire message =
      wire_message P (PredictRequest.codec P C) 10 message.request
      ++ (wire_message P (ExecutionError.codec P) 18 message.error
          ++ (wire_message P (PredictResponse.codec P C) 26 message.response
              ++ (wire_message P (ExecutionMetadata.codec P) 34 message.metadata)))

  pub on_field-Ahead :
      (m : ExecutionInformation A) (tag : ℕ) (r : Reader) → Ahead r (on_field m tag r)
  unfolding on_field
  on_field-Ahead m tag r =
      Ahead-if (tag / 8 == 1) (Ahead-store _ _ (read_sized-Ahead P (PredictRequest.codec P C) r)) (
        Ahead-if (tag / 8 == 2) (Ahead-store _ _ (read_sized-Ahead P (ExecutionError.codec P) r)) (
          Ahead-if (tag / 8 == 3)
            (Ahead-store _ _ (read_sized-Ahead P (PredictResponse.codec P C) r))
            (Ahead-if (tag / 8 == 4)
              (Ahead-store _ _ (read_sized-Ahead P (ExecutionMetadata.codec P) r))
              (Ahead-skip_field P m tag r))))

  pub encode_fresh : (m : ExecutionInformation A) → encode m none ≡ encode m (some P.create_writer)
  unfolding encode
  encode_fresh m = refl

  pub encode-Writes :
      (m : ExecutionInformation A) (w : P.Writer)
      → IsValid m
      → IsUint32 (length (wire m))
      → Writes P w (encode m (some w)) (wire m)
  unfolding encode
  encode-Writes m w (v₁, v₂, v₃, v₄) short =
      Writes-append P w _ _ _ _
        (Writes-message_field P (PredictRequest.codec P C) w 10 m.request (omega arith) v₁
          (omega lengths))
        (Writes-append P _ _ _ _ _
          (Writes-message_field P (ExecutionError.codec P) _ 18 m.error (omega arith) v₂
            (omega lengths))
          (Writes-append P _ _ _ _ _
            (Writes-message_field P (PredictResponse.codec P C) _ 26 m.response (omega arith) v₃
              (omega lengths))
            (Writes-message_field P (ExecutionMetadata.codec P) _ 34 m.metadata (omega arith) v₄
              (omega lengths))))

  pub wire-Consumes :
      (m : ExecutionInformation A)
      → IsValid m
      → IsUint32 (length (wire m))
      → Consumes P on_field empty (wire m) m
  unfolding on_field
  wire-Consumes m (v₁, v₂, v₃, v₄) short =
      Consumes-append P on_field _ _
        (Consumes-message_field P (PredictRequest.codec P C) on_field
          (λ o. record { request = o; error = none; response = none; metadata = none }) 10 m.request
          (omega arith) v₁ (omega lengths) (λ r. refl))
        (Consumes-append P on_field _ _
          (Consumes-message_field P (ExecutionError.codec P) on_field
            (λ o. record { request = m.request; error = o; response = none; metadata = none }) 18
            m.error (omega arith) v₂ (omega lengths) (λ r. refl))
          (Consumes-append P on_field _ _
            (Consumes-message_field P (PredictResponse.codec P C) on_field
              (λ o. record { request = m.request; error = m.error; response = o; metadata = none })
              26 m.response (omega arith) v₃ (omega lengths) (λ r. refl))
            (Consumes-message_field P (ExecutionMetadata.codec P) on_field
              (λ o. record {
                request = m.request;
                error = m.error;
                response = m.response;
                metadata = o;
              })
              34 m.metadata (omega arith) v₄ (omega lengths) (λ r. refl))))

  abbrev pub parts : Parts P (ExecutionInformation A)
  parts = record {
    empty = empty;
    on_field = on_field;
    encode = encode;
    IsValid = IsValid;
    wire = wire;
    on_field-Ahead = on_field-Ahead;
    encode_fresh = encode_fresh;
    encode-Writes = encode-Writes;
    wire-Consumes = wire-Consumes;
  }

  abbrev pub codec : Codec P (ExecutionInformation A)
  codec = codec_of P parts
