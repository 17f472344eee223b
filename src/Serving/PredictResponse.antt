-- ===== src/Serving/PredictResponse.antt =====
-- `hydrosphere.tensorflow.serving.PredictResponse` of tsclient/recstore-ts/src/compiled.js.
-- `A` is the type of the tensors, and `C` their codec.
use timemachine.Base.{
  ℕ, ◌/◌, ◌≡◌, refl, ◌++◌, List, [], Option, none, some, length, All, lengths, if◌then◌else◌, ◌==◌,
  arith,
}
use timemachine.JsObject.{DistinctFrom}
use timemachine.Protobuf.Outcome.{Text, Result}
use timemachine.Protobuf.Runtime.{Runtime, Reader, IsUint32}
use timemachine.Protobuf.Loop.{Ahead, Ahead-if}
use timemachine.Protobuf.Writes.{Writes, Writes-append}
use timemachine.Protobuf.Decoder.{Source, Consumes, Consumes-append, decode_message, read_sized}
use timemachine.Protobuf.Codec.{
  Codec, or_create, encode_delimited_by, decode_delimited_by, read_sized-Ahead,
}
use timemachine.Protobuf.Message.{store, Ahead-store, skip_field, Ahead-skip_field}
use timemachine.Protobuf.Optional.{
  InOption, put_message, wire_message, Writes-message_field, Consumes-message_field,
}
use timemachine.Protobuf.MapField.{
  put_entries, wire_entries, read_entry, set_entry, IsEntry, read_entry-Ahead, Writes-entries,
  Consumes-entries,
}
use timemachine.Protobuf.Build.{Parts, codec_of}
use timemachine.Monitoring.TraceData
use timemachine.Monitoring.TraceData.{TraceData}

-- An own property that is not null is `some`; `none` reads as the prototype's default.
pub record PredictResponse (A : Type 0) : Type 0 where
  pub outputs : List (Text × A)
  pub internal_info : List (Text × A)
  pub trace_data : Option TraceData

-- `new PredictResponse()`
abbrev pub empty : {A : Type 0} → PredictResponse A
empty = record { outputs = []; internal_info = []; trace_data = none }

module _ (P : Runtime) {A : Type 0} (C : Codec P A) where
  abbrev pub IsValid : PredictResponse A → Type 0
  IsValid message =
      (All (IsEntry P C) message.outputs × DistinctFrom [] message.outputs)
      × (All (IsEntry P C) message.internal_info × DistinctFrom [] message.internal_info)
      × InOption TraceData.IsValid message.trace_data

  unfoldable pub encode : PredictResponse A → Option P.Writer → P.Writer
  encode message writer =
      let w₀ = or_create P writer in
      let w₁ = put_entries P C 10 message.outputs w₀ in
      let w₂ = put_entries P C 810 message.internal_info w₁ in
      put_message P (TraceData.codec P) 818 message.trace_data w₂

  -- `switch (tag >>> 3)`
  unfoldable pub on_field : PredictResponse A → ℕ → Reader → Result (PredictResponse A × Reader)
  on_field message tag r =
      if tag / 8 == 1
      then store (read_entry P C r)
          (λ v. record message { outputs = set_entry P C message.outputs v })
      else if tag / 8 == 101
      then store (read_entry P C r)
          (λ v. record message { internal_info = set_entry P C message.internal_info v })
      else if tag / 8 == 102
      then store (read_sized P (TraceData.decode P) r) (λ v. record message { trace_data = some v })
      else skip_field P message tag r

  abbrev pub decode : Source → Option ℕ → Result (PredictResponse A × Reader)
  decode = decode_message P empty on_field

  abbrev pub encode_delimited : PredictResponse A → Option P.Writer → P.Writer
  encode_delimited = encode_delimited_by P encode

  abbrev pub decode_delimited : Source → Result (PredictResponse A × Reader)
  decode_delimited = decode_delimited_by P decode

  -- The bytes of a message.
  abbrev pub wire : PredictResponse A → List ℕ
  wire message =
      wire_entries P C 10 message.outputs
      ++ (wire_entries P C 810 message.internal_info
          ++ (wire_message P (TraceData.codec P) 818 message.trace_data))

  pub on_field-Ahead : (m : PredictResponse A) (tag : ℕ) (r : Reader) → Ahead r (on_field m tag r)
  unfolding on_field
  on_field-Ahead m tag r = Ahead-if (tag / 8 == 1) (Ahead-store _ _ (read_entry-Ahead P C r)) (
      Ahead-if (tag / 8 == 101) (Ahead-store _ _ (read_entry-Ahead P C r)) (
        Ahead-if (tag / 8 == 102) (Ahead-store _ _ (read_sized-Ahead P (TraceData.codec P) r))
          (Ahead-skip_field P m tag r)))

  pub encode_fresh : (m : PredictResponse A) → encode m none ≡ encode m (some P.create_writer)
  unfolding encode
  encode_fresh m = refl

  pub encode-Writes :
      (m : PredictResponse A) (w : P.Writer)
      → IsValid m
      → IsUint32 (length (wire m))
      → Writes P w (encode m (some w)) (wire m)
  unfolding encode
  encode-Writes m w ((v₁, d₁), (v₂, d₂), v₃) short =
      Writes-append P w _ _ _ _ (Writes-entries P C 10 m.outputs w (omega arith) v₁ (omega lengths))
        (Writes-append P _ _ _ _ _
          (Writes-entries P C 810 m.internal_info _ (omega arith) v₂ (omega lengths))
          (Writes-message_field P (TraceData.codec P) _ 818 m.trace_data (omega arith) v₃
            (omega lengths)))

  pub wire-Consumes :
      (m : PredictResponse A)
      → IsValid m
      → IsUint32 (length (wire m))
      → Consumes P on_field empty (wire m) m
  unfolding on_field
  wire-Consumes m ((v₁, d₁), (v₂, d₂), v₃) short =
      Consumes-append P on_field _ _
        (Consumes-entries P C on_field
          (λ o. record { outputs = o; internal_info = []; trace_data = none }) 10 [] m.outputs
          (omega arith) v₁ d₁ (omega lengths) (λ done r. refl))
        (Consumes-append P on_field _ _
          (Consumes-entries P C on_field
            (λ o. record { outputs = m.outputs; internal_info = o; trace_data = none }) 810 []
            m.internal_info (omega arith) v₂ d₂ (omega lengths) (λ done r. refl))
          (Consumes-message_field P (TraceData.codec P) on_field
            (λ o. record { outputs = m.outputs; internal_info = m.internal_info; trace_data = o })
            818 m.trace_data (omega arith) v₃ (omega lengths) (λ r. refl)))

  abbrev pub parts : Parts P (PredictResponse A)
  parts = record {
    empty = empty;
    on_field = on_field;
    encode = encode;
    IsValid = IsValid;
    wire = wire;
    on_field-Ahead = on_field-Ahead;
    encode_fresh = encode_fresh;
    encode-Writes = encode-Writes;
    wire-Consumes = wire-Consumes;
  }

  abbrev pub codec : Codec P (PredictResponse A)
  codec = codec_of P parts
