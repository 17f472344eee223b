-- ===== src/Serving/PredictRequest.antt =====
-- `hydrosphere.tensorflow.serving.PredictRequest` of tsclient/recstore-ts/src/compiled.js.
-- `A` is the type of the tensors, and `C` their codec.
use timemachine.Base.{
  ℕ, ◌/◌, ◌≡◌, refl, ◌++◌, List, [], Option, none, some, length, All, lengths, if◌then◌else◌, ◌==◌,
  arith,
}
use timemachine.JsObject.{DistinctFrom}
use timemachine.Protobuf.Outcome.{Text, Result}
use timemachine.Protobuf.Runtime.{Runtime, Reader, IsUint32}
use timemachine.Protobuf.Loop.{Ahead, Ahead-if}
use timemachine.Protobuf.Writes.{Writes, Writes-append}
use timemachine.Protobuf.Decoder.{Source, Consumes, Consumes-append, decode_message, read_sized}
use timemachine.Protobuf.Codec.{
  Codec, or_create, encode_delimited_by, decode_delimited_by, read_sized-Ahead,
}
use timemachine.Protobuf.Message.{store, Ahead-store, skip_field, Ahead-skip_field}
use timemachine.Protobuf.Optional.{
  InOption, put_message, wire_message, Writes-message_field, Consumes-message_field,
}
use timemachine.Protobuf.MapField.{
  put_entries, wire_entries, read_entry, set_entry, IsEntry, read_entry-Ahead, Writes-entries,
  Consumes-entries,
}
use timemachine.Protobuf.Build.{Parts, codec_of}
use timemachine.Serving.ModelSpec
use timemachine.Serving.ModelSpec.{ModelSpec}

-- An own property that is not null is `some`; `none` reads as the prototype's default.
pub record PredictRequest (A : Type 0) : Type 0 where
  pub model_spec : Option ModelSpec
  pub inputs : List (Text × A)

-- `new PredictRequest()`
abbrev pub empty : {A : Type 0} → PredictRequest A
empty = record { model_spec = none; inputs = [] }

module _ (P : Runtime) {A : Type 0} (C : Codec P A) where
  abbrev pub IsValid : PredictRequest A → Type 0
  IsValid message =
      InOption ModelSpec.IsValid message.model_spec
      × (All (IsEntry P C) message.inputs × DistinctFrom [] message.inputs)

  unfoldable pub encode : PredictRequest A → Option P.Writer → P.Writer
  encode message writer =
      let w₀ = or_create P writer in
      let w₁ = put_message P (ModelSpec.codec P) 10 message.model_spec w₀ in
      put_entries P C 18 message.inputs w₁

  -- `switch (tag >>> 3)`
  unfoldable pub on_field : PredictRequest A → ℕ → Reader → Result (PredictRequest A × Reader)
  on_field message tag r =
      if tag / 8 == 1
      then store (read_sized P (ModelSpec.decode P) r) (λ v. record message { model_spec = some v })
      else if tag / 8 == 2
      then store (read_entry P C r)
          (λ v. record message { inputs = set_entry P C message.inputs v })
      else skip_field P message tag r

  abbrev pub decode : Source → Option ℕ → Result (PredictRequest A × Reader)
  decode = decode_message P empty on_field

  abbrev pub encode_delimited : PredictRequest A → Option P.Writer → P.Writer
  encode_delimited = encode_delimited_by P encode

  abbrev pub decode_delimited : Source → Result (PredictRequest A × Reader)
  decode_delimited = decode_delimited_by P decode

  -- The bytes of a message.
  abbrev pub wire : PredictRequest A → List ℕ
  wire message =
      wire_message P (ModelSpec.codec P) 10 message.model_spec
      ++ (wire_entries P C 18 message.inputs)

  pub on_field-Ahead : (m : PredictRequest A) (tag : ℕ) (r : Reader) → Ahead r (on_field m tag r)
  unfolding on_field
  on_field-Ahead m tag r =
      Ahead-if (tag / 8 == 1) (Ahead-store _ _ (read_sized-Ahead P (ModelSpec.codec P) r)) (
        Ahead-if (tag / 8 == 2) (Ahead-store _ _ (read_entry-Ahead P C r))
          (Ahead-skip_field P m tag r))

  pub encode_fresh : (m : PredictRequest A) → encode m none ≡ encode m (some P.create_writer)
  unfolding encode
  encode_fresh m = refl

  pub encode-Writes :
      (m : PredictRequest A) (w : P.Writer)
      → IsValid m
      → IsUint32 (length (wire m))
      → Writes P w (encode m (some w)) (wire m)
  unfolding encode
  encode-Writes m w (v₁, (v₂, d₂)) short =
      Writes-append P w _ _ _ _
        (Writes-message_field P (ModelSpec.codec P) w 10 m.model_spec (omega arith) v₁
          (omega lengths))
        (Writes-entries P C 18 m.inputs _ (omega arith) v₂ (omega lengths))

  pub wire-Consumes :
      (m : PredictRequest A)
      → IsValid m
      → IsUint32 (length (wire m))
      → Consumes P on_field empty (wire m) m
  unfolding on_field
  wire-Consumes m (v₁, (v₂, d₂)) short =
      Consumes-append P on_field _ _
        (Consumes-message_field P (ModelSpec.codec P) on_field
          (λ o. record { model_spec = o; inputs = [] }) 10 m.model_spec (omega arith) v₁
          (omega lengths) (λ r. refl))
        (Consumes-entries P C on_field (λ o. record { model_spec = m.model_spec; inputs = o }) 18 []
          m.inputs (omega arith) v₂ d₂ (omega lengths) (λ done r. refl))

  abbrev pub parts : Parts P (PredictRequest A)
  parts = record {
    empty = empty;
    on_field = on_field;
    encode = encode;
    IsValid = IsValid;
    wire = wire;
    on_field-Ahead = on_field-Ahead;
    encode_fresh = encode_fresh;
    encode-Writes = encode-Writes;
    wire-Consumes = wire-Consumes;
  }

  abbrev pub codec : Codec P (PredictRequest A)
  codec = codec_of P parts
