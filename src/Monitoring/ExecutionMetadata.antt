-- ===== src/Monitoring/ExecutionMetadata.antt =====
-- `hydrosphere.monitoring.ExecutionMetadata` of tsclient/recstore-ts/src/compiled.js.
use timemachine.Base.{
  ℕ, ◌/◌, ◌≡◌, refl, ◌++◌, List, Option, none, some, length, lengths, if◌then◌else◌, ◌==◌, arith,
}
use timemachine.Protobuf.Outcome.{Text, Result, attempt}
use timemachine.Protobuf.Runtime.{Runtime, Reader, IsUint32, IsText, IsLong}
use timemachine.Protobuf.Loop.{Ahead, Ahead-if, Ahead-read}
use timemachine.Protobuf.Writes.{Writes, Writes-append}
use timemachine.Protobuf.Decoder.{Source, Consumes, Consumes-append, decode_message, read_sized}
use timemachine.Protobuf.Codec.{
  Codec, or_create, encode_delimited_by, decode_delimited_by, read_sized-Ahead,
}
use timemachine.Protobuf.Message.{store, Ahead-store, skip_field, Ahead-skip_field}
use timemachine.Protobuf.Optional.{
  InOption, put_scalar, wire_scalar, Writes-scalar, Consumes-scalar_field, put_message,
  wire_message, Writes-message_field, Consumes-message_field,
}
use timemachine.Protobuf.Build.{Parts, codec_of}
use timemachine.Monitoring.TraceData
use timemachine.Monitoring.TraceData.{TraceData}

-- An own property that is not null is `some`; `none` reads as the prototype's default.
pub record ExecutionMetadata : Type 0 where
  pub application_id : Option ℕ
  pub stage_id : Option Text
  pub model_version_id : Option ℕ
  pub signature_name : Option Text
  pub request_id : Option Text
  pub application_request_id : Option Text
  pub application_namespace : Option Text
  pub model_name : Option Text
  pub trace_data : Option TraceData

-- `new ExecutionMetadata()`
abbrev pub empty : ExecutionMetadata
empty = record {
  application_id = none;
  stage_id = none;
  model_version_id = none;
  signature_name = none;
  request_id = none;
  application_request_id = none;
  application_namespace = none;
  model_name = none;
  trace_data = none;
}

abbrev pub IsValid : ExecutionMetadata → Type 0
IsValid message =
    InOption IsLong message.application_id
    × InOption IsText message.stage_id
    × InOption IsLong message.model_version_id
    × InOption IsText message.signature_name
    × InOption IsText message.request_id
    × InOption IsText message.application_request_id
    × InOption IsText message.application_namespace
    × InOption IsText message.model_name
    × InOption TraceData.IsValid message.trace_data

module _ (P : Runtime) where
  unfoldable pub encode : ExecutionMetadata → Option P.Writer → P.Writer
  encode message writer =
      let w₀ = or_create P writer in
      let w₁ = put_scalar P P.int64 8 message.application_id w₀ in
      let w₂ = put_scalar P P.string 18 message.stage_id w₁ in
      let w₃ = put_scalar P P.int64 24 message.model_version_id w₂ in
      let w₄ = put_scalar P P.string 34 message.signature_name w₃ in
      let w₅ = put_scalar P P.string 42 message.request_id w₄ in
      let w₆ = put_scalar P P.string 50 message.application_request_id w₅ in
      let w₇ = put_scalar P P.string 58 message.application_namespace w₆ in
      let w₈ = put_scalar P P.string 66 message.model_name w₇ in
      put_message P (TraceData.codec P) 82 message.trace_data w₈

  -- `switch (tag >>> 3)`
  unfoldable pub on_field : ExecutionMetadata → ℕ → Reader → Result (ExecutionMetadata × Reader)
  on_field message tag r =
      if tag / 8 == 1
      then store (attempt (P.int64.read r)) (λ v. record message { application_id = some v })
      else if tag / 8 == 2
      then store (attempt (P.string.read r)) (λ v. record message { stage_id = some v })
      else if tag / 8 == 3
      then store (attempt (P.int64.read r)) (λ v. record message { model_version_id = some v })
      else if tag / 8 == 4
      then store (attempt (P.string.read r)) (λ v. record message { signature_name = some v })
      else if tag / 8 == 5
      then store (attempt (P.string.read r)) (λ v. record message { request_id = some v })
      else if tag / 8 == 6
      then store (attempt (P.string.read r))
          (λ v. record message { application_request_id = some v })
      else if tag / 8 == 7
      then store (attempt (P.string.read r))
          (λ v. record message { application_namespace = some v })
      else if tag / 8 == 8
      then store (attempt (P.string.read r)) (λ v. record message { model_name = some v })
      else if tag / 8 == 10
      then store (read_sized P (TraceData.decode P) r) (λ v. record message { trace_data = some v })
      else skip_field P message tag r

  abbrev pub decode : Source → Option ℕ → Result (ExecutionMetadata × Reader)
  decode = decode_message P empty on_field

  abbrev pub encode_delimited : ExecutionMetadata → Option P.Writer → P.Writer
  encode_delimited = encode_delimited_by P encode

  abbrev pub decode_delimited : Source → Result (ExecutionMetadata × Reader)
  decode_delimited = decode_delimited_by P decode

  -- The bytes of a message.
  abbrev pub wire : ExecutionMetadata → List ℕ
  wire message =
      wire_scalar P P.int64 8 message.application_id
      ++ (wire_scalar P P.string 18 message.stage_id
          ++ (wire_scalar P P.int64 24 message.model_version_id
              ++ (wire_scalar P P.string 34 message.signature_name
                  ++ (wire_scalar P P.string 42 message.request_id
                      ++ (wire_scalar P P.string 50 message.application_request_id
                          ++ (wire_scalar P P.string 58 message.application_namespace
                              ++ (wire_scalar P P.string 66 message.model_name
                                  ++ (wire_message P (TraceData.codec P) 82
                                      message.trace_data))))))))

  pub on_field-Ahead : (m : ExecutionMetadata) (tag : ℕ) (r : Reader) → Ahead r (on_field m tag r)
  unfolding on_field
  on_field-Ahead m tag r = Ahead-if (tag / 8 == 1) (Ahead-store _ _ (Ahead-read P P.int64 r)) (
      Ahead-if (tag / 8 == 2) (Ahead-store _ _ (Ahead-read P P.string r)) (
        Ahead-if (tag / 8 == 3) (Ahead-store _ _ (Ahead-read P P.int64 r)) (
          Ahead-if (tag / 8 == 4) (Ahead-store _ _ (Ahead-read P P.string r)) (
            Ahead-if (tag / 8 == 5) (Ahead-store _ _ (Ahead-read P P.string r)) (
              Ahead-if (tag / 8 == 6) (Ahead-store _ _ (Ahead-read P P.string r)) (
                Ahead-if (tag / 8 == 7) (Ahead-store _ _ (Ahead-read P P.string r)) (
                  Ahead-if (tag / 8 == 8) (Ahead-store _ _ (Ahead-read P P.string r)) (
                    Ahead-if (tag / 8 == 10)
                      (Ahead-store _ _ (read_sized-Ahead P (TraceData.codec P) r))
                      (Ahead-skip_field P m tag r)))))))))

  pub encode_fresh : (m : ExecutionMetadata) → encode m none ≡ encode m (some P.create_writer)
  unfolding encode
  encode_fresh m = refl

  pub encode-Writes :
      (m : ExecutionMetadata) (w : P.Writer)
      → IsValid m
      → IsUint32 (length (wire m))
      → Writes P w (encode m (some w)) (wire m)
  unfolding encode
  encode-Writes m w (v₁, v₂, v₃, v₄, v₅, v₆, v₇, v₈, v₉) short =
      Writes-append P w _ _ _ _ (Writes-scalar P P.int64 w 8 m.application_id (omega arith) v₁) (
        Writes-append P _ _ _ _ _ (Writes-scalar P P.string _ 18 m.stage_id (omega arith) v₂) (
          Writes-append P _ _ _ _ _
            (Writes-scalar P P.int64 _ 24 m.model_version_id (omega arith) v₃)
            (Writes-append P _ _ _ _ _
              (Writes-scalar P P.string _ 34 m.signature_name (omega arith) v₄)
              (Writes-append P _ _ _ _ _
                (Writes-scalar P P.string _ 42 m.request_id (omega arith) v₅)
                (Writes-append P _ _ _ _ _
                  (Writes-scalar P P.string _ 50 m.application_request_id (omega arith) v₆)
                  (Writes-append P _ _ _ _ _
                    (Writes-scalar P P.string _ 58 m.application_namespace (omega arith) v₇)
                    (Writes-append P _ _ _ _ _
                      (Writes-scalar P P.string _ 66 m.model_name (omega arith) v₈)
                      (Writes-message_field P (TraceData.codec P) _ 82 m.trace_data (omega arith) v₉
                        (omega lengths)))))))))

  pub wire-Consumes :
      (m : ExecutionMetadata)
      → IsValid m
      → IsUint32 (length (wire m))
      → Consumes P on_field empty (wire m) m
  unfolding on_field
  wire-Consumes m (v₁, v₂, v₃, v₄, v₅, v₆, v₇, v₈, v₉) short =
      Consumes-append P on_field _ _
        (Consumes-scalar_field P P.int64 on_field
          (λ o. record {
            application_id = o;
            stage_id = none;
            model_version_id = none;
            signature_name = none;
            request_id = none;
            application_request_id = none;
            application_namespace = none;
            model_name = none;
            trace_data = none;
          })
          8 m.application_id (omega arith) v₁ (λ r. refl))
        (Consumes-append P on_field _ _
          (Consumes-scalar_field P P.string on_field
            (λ o. record {
              application_id = m.application_id;
              stage_id = o;
              model_version_id = none;
              signature_name = none;
              request_id = none;
              application_request_id = none;
              application_namespace = none;
              model_name = none;
              trace_data = none;
            })
            18 m.stage_id (omega arith) v₂ (λ r. refl))
          (Consumes-append P on_field _ _
            (Consumes-scalar_field P P.int64 on_field
              (λ o. record {
                application_id = m.application_id;
                stage_id = m.stage_id;
                model_version_id = o;
                signature_name = none;
                request_id = none;
                application_request_id = none;
                application_namespace = none;
                model_name = none;
                trace_data = none;
              })
              24 m.model_version_id (omega arith) v₃ (λ r. refl))
            (Consumes-append P on_field _ _
              (Consumes-scalar_field P P.string on_field
                (λ o. record {
                  application_id = m.application_id;
                  stage_id = m.stage_id;
                  model_version_id = m.model_version_id;
                  signature_name = o;
                  request_id = none;
                  application_request_id = none;
                  application_namespace = none;
                  model_name = none;
                  trace_data = none;
                })
                34 m.signature_name (omega arith) v₄ (λ r. refl))
              (Consumes-append P on_field _ _
                (Consumes-scalar_field P P.string on_field
                  (λ o. record {
                    application_id = m.application_id;
                    stage_id = m.stage_id;
                    model_version_id = m.model_version_id;
                    signature_name = m.signature_name;
                    request_id = o;
                    application_request_id = none;
                    application_namespace = none;
                    model_name = none;
                    trace_data = none;
                  })
                  42 m.request_id (omega arith) v₅ (λ r. refl))
                (Consumes-append P on_field _ _
                  (Consumes-scalar_field P P.string on_field
                    (λ o. record {
                      application_id = m.application_id;
                      stage_id = m.stage_id;
                      model_version_id = m.model_version_id;
                      signature_name = m.signature_name;
                      request_id = m.request_id;
                      application_request_id = o;
                      application_namespace = none;
                      model_name = none;
                      trace_data = none;
                    })
                    50 m.application_request_id (omega arith) v₆ (λ r. refl))
                  (Consumes-append P on_field _ _
                    (Consumes-scalar_field P P.string on_field
                      (λ o. record {
                        application_id = m.application_id;
                        stage_id = m.stage_id;
                        model_version_id = m.model_version_id;
                        signature_name = m.signature_name;
                        request_id = m.request_id;
                        application_request_id = m.application_request_id;
                        application_namespace = o;
                        model_name = none;
                        trace_data = none;
                      })
                      58 m.application_namespace (omega arith) v₇ (λ r. refl))
                    (Consumes-append P on_field _ _
                      (Consumes-scalar_field P P.string on_field
                        (λ o. record {
                          application_id = m.application_id;
                          stage_id = m.stage_id;
                          model_version_id = m.model_version_id;
                          signature_name = m.signature_name;
                          request_id = m.request_id;
                          application_request_id = m.application_request_id;
                          application_namespace = m.application_namespace;
                          model_name = o;
                          trace_data = none;
                        })
                        66 m.model_name (omega arith) v₈ (λ r. refl))
                      (Consumes-message_field P (TraceData.codec P) on_field
                        (λ o. record {
                          application_id = m.application_id;
                          stage_id = m.stage_id;
                          model_version_id = m.model_version_id;
                          signature_name = m.signature_name;
                          request_id = m.request_id;
                          application_request_id = m.application_request_id;
                          application_namespace = m.application_namespace;
                          model_name = m.model_name;
                          trace_data = o;
                        })
                        82 m.trace_data (omega arith) v₉ (omega lengths) (λ r. refl)))))))))

  abbrev pub parts : Parts P ExecutionMetadata
  parts = record {
    empty = empty;
    on_field = on_field;
    encode = encode;
    IsValid = IsValid;
    wire = wire;
    on_field-Ahead = on_field-Ahead;
    encode_fresh = encode_fresh;
    encode-Writes = encode-Writes;
    wire-Consumes = wire-Consumes;
  }

  abbrev pub codec : Codec P ExecutionMetadata
  codec = codec_of P parts
