-- ===== src/Serving/ModelSpec.antt =====
-- `hydrosphere.tensorflow.serving.ModelSpec` of tsclient/recstore-ts/src/compiled.js.
use timemachine.Base.{
  ℕ, ◌/◌, ◌≡◌, refl, ◌++◌, List, Option, none, some, length, lengths, if◌then◌else◌, ◌==◌, arith,
}
use timemachine.Protobuf.Outcome.{Text, Result, attempt}
use timemachine.Protobuf.Runtime.{Runtime, Reader, IsUint32, IsText}
use timemachine.Protobuf.Loop.{Ahead, Ahead-if, Ahead-read}
use timemachine.Protobuf.Writes.{Writes, Writes-append}
use timemachine.Protobuf.Decoder.{Source, Consumes, Consumes-append, decode_message, read_sized}
use timemachine.Protobuf.Codec.{
  Codec, or_create, encode_delimited_by, decode_delimited_by, read_sized-Ahead,
}
use timemachine.Protobuf.Message.{store, Ahead-store, skip_field, Ahead-skip_field}
use timemachine.Protobuf.Optional.{
  InOption, put_scalar, wire_scalar, Writes-scalar, Consumes-scalar_field, put_message,
  wire_message, Writes-message_field, Consumes-message_field,
}
use timemachine.Protobuf.Build.{Parts, codec_of}
use timemachine.Wrapper.Int64Value
use timemachine.Wrapper.Int64Value.{Int64Value}

-- An own property that is not null is `some`; `none` reads as the prototype's default.
pub record ModelSpec : Type 0 where
  pub name : Option Text
  pub version : Option Int64Value
  pub signature_name : Option Text

-- `new ModelSpec()`
abbrev pub empty : ModelSpec
empty = record { name = none; version = none; signature_name = none }

abbrev pub IsValid : ModelSpec → Type 0
IsValid message =
    InOption IsText message.name
    × InOption Int64Value.IsValid message.version
    × InOption IsText message.signature_name

module _ (P : Runtime) where
  unfoldable pub encode : ModelSpec → Option P.Writer → P.Writer
  encode message writer =
      let w₀ = or_create P writer in
      let w₁ = put_scalar P P.string 10 message.name w₀ in
      let w₂ = put_message P (Int64Value.codec P) 18 message.version w₁ in
      put_scalar P P.string 26 message.signature_name w₂

  -- `switch (tag >>> 3)`
  unfoldable pub on_field : ModelSpec → ℕ → Reader → Result (ModelSpec × Reader)
  on_field message tag r =
      if tag / 8 == 1
      then store (attempt (P.string.read r)) (λ v. record message { name = some v })
      else if tag / 8 == 2
      then store (read_sized P (Int64Value.decode P) r) (λ v. record message { version = some v })
      else if tag / 8 == 3
      then store (attempt (P.string.read r)) (λ v. record message { signature_name = some v })
      else skip_field P message tag r

  abbrev pub decode : Source → Option ℕ → Result (ModelSpec × Reader)
  decode = decode_message P empty on_field

  abbrev pub encode_delimited : ModelSpec → Option P.Writer → P.Writer
  encode_delimited = encode_delimited_by P encode

  abbrev pub decode_delimited : Source → Result (ModelSpec × Reader)
  decode_delimited = decode_delimited_by P decode

  -- The bytes of a message.
  abbrev pub wire : ModelSpec → List ℕ
  wire message =
      wire_scalar P P.string 10 message.name
      ++ (wire_message P (Int64Value.codec P) 18 message.version
          ++ (wire_scalar P P.string 26 message.signature_name))

  pub on_field-Ahead : (m : ModelSpec) (tag : ℕ) (r : Reader) → Ahead r (on_field m tag r)
  unfolding on_field
  on_field-Ahead m tag r = Ahead-if (tag / 8 == 1) (Ahead-store _ _ (Ahead-read P P.string r)) (
      Ahead-if (tag / 8 == 2) (Ahead-store _ _ (read_sized-Ahead P (Int64Value.codec P) r)) (
        Ahead-if (tag / 8 == 3) (Ahead-store _ _ (Ahead-read P P.string r))
          (Ahead-skip_field P m tag r)))

  pub encode_fresh : (m : ModelSpec) → encode m none ≡ encode m (some P.create_writer)
  unfolding encode
  encode_fresh m = refl

  pub encode-Writes :
      (m : ModelSpec) (w : P.Writer)
      → IsValid m
      → IsUint32 (length (wire m))
      → Writes P w (encode m (some w)) (wire m)
  unfolding encode
  encode-Writes m w (v₁, v₂, v₃) short =
      Writes-append P w _ _ _ _ (Writes-scalar P P.string w 10 m.name (omega arith) v₁) (
        Writes-append P _ _ _ _ _
          (Writes-message_field P (Int64Value.codec P) _ 18 m.version (omega arith) v₂
            (omega lengths))
          (Writes-scalar P P.string _ 26 m.signature_name (omega arith) v₃))

  pub wire-Consumes :
      (m : ModelSpec)
      → IsValid m
      → IsUint32 (length (wire m))
      → Consumes P on_field empty (wire m) m
  unfolding on_field
  wire-Consumes m (v₁, v₂, v₃) short =
      Consumes-append P on_field _ _
        (Consumes-scalar_field P P.string on_field
          (λ o. record { name = o; version = none; signature_name = none }) 10 m.name (omega arith)
          v₁ (λ r. refl))
        (Consumes-append P on_field _ _
          (Consumes-message_field P (Int64Value.codec P) on_field
            (λ o. record { name = m.name; version = o; signature_name = none }) 18 m.version
            (omega arith) v₂ (omega lengths) (λ r. refl))
          (Consumes-scalar_field P P.string on_field
            (λ o. record { name = m.name; version = m.version; signature_name = o }) 26
            m.signature_name (omega arith) v₃ (λ r. refl)))

  abbrev pub parts : Parts P ModelSpec
  parts = record {
    empty = empty;
    on_field = on_field;
    encode = encode;
    IsValid = IsValid;
    wire = wire;
    on_field-Ahead = on_field-Ahead;
    encode_fresh = encode_fresh;
    encode-Writes = encode-Writes;
    wire-Consumes = wire-Consumes;
  }

  abbrev pub codec : Codec P ModelSpec
  codec = codec_of P parts
