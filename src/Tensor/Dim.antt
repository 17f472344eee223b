-- ===== src/Tensor/Dim.antt =====
-- `hydrosphere.tensorflow.TensorShapeProto.Dim` of tsclient/recstore-ts/src/compiled.js.
use timemachine.Base.{
  ℕ, ◌/◌, ◌≡◌, refl, ◌++◌, List, Option, none, some, length, if◌then◌else◌, ◌==◌, arith,
}
use timemachine.Protobuf.Outcome.{Text, Result, attempt}
use timemachine.Protobuf.Runtime.{Runtime, Reader, IsUint32, IsText, IsLong}
use timemachine.Protobuf.Loop.{Ahead, Ahead-if, Ahead-read}
use timemachine.Protobuf.Writes.{Writes, Writes-append}
use timemachine.Protobuf.Decoder.{Source, Consumes, Consumes-append, decode_message}
use timemachine.Protobuf.Codec.{Codec, or_create, encode_delimited_by, decode_delimited_by}
use timemachine.Protobuf.Message.{store, Ahead-store, skip_field, Ahead-skip_field}
use timemachine.Protobuf.Optional.{
  InOption, put_scalar, wire_scalar, Writes-scalar, Consumes-scalar_field,
}
use timemachine.Protobuf.Build.{Parts, codec_of}

-- An own property that is not null is `some`; `none` reads as the prototype's default.
pub record Dim : Type 0 where
  pub size : Option ℕ
  pub name : Option Text

-- `new Dim()`
abbrev pub empty : Dim
empty = record { size = none; name = none }

abbrev pub IsValid : Dim → Type 0
IsValid message = InOption IsLong message.size × InOption IsText message.name

module _ (P : Runtime) where
  unfoldable pub encode : Dim → Option P.Writer → P.Writer
  encode message writer =
      let w₀ = or_create P writer in
      let w₁ = put_scalar P P.int64 8 message.size w₀ in put_scalar P P.string 18 message.name w₁

  -- `switch (tag >>> 3)`
  unfoldable pub on_field : Dim → ℕ → Reader → Result (Dim × Reader)
  on_field message tag r =
      if tag / 8 == 1
      then store (attempt (P.int64.read r)) (λ v. record message { size = some v })
      else if tag / 8 == 2
      then store (attempt (P.string.read r)) (λ v. record message { name = some v })
      else skip_field P message tag r

  abbrev pub decode : Source → Option ℕ → Result (Dim × Reader)
  decode = decode_message P empty on_field

  abbrev pub encode_delimited : Dim → Option P.Writer → P.Writer
  encode_delimited = encode_delimited_by P encode

  abbrev pub decode_delimited : Source → Result (Dim × Reader)
  decode_delimited = decode_delimited_by P decode

  -- The bytes of a message.
  abbrev pub wire : Dim → List ℕ
  wire message = wire_scalar P P.int64 8 message.size ++ (wire_scalar P P.string 18 message.name)

  pub on_field-Ahead : (m : Dim) (tag : ℕ) (r : Reader) → Ahead r (on_field m tag r)
  unfolding on_field
  on_field-Ahead m tag r = Ahead-if (tag / 8 == 1) (Ahead-store _ _ (Ahead-read P P.int64 r)) (
      Ahead-if (tag / 8 == 2) (Ahead-store _ _ (Ahead-read P P.string r))
        (Ahead-skip_field P m tag r))

  pub encode_fresh : (m : Dim) → encode m none ≡ encode m (some P.create_writer)
  unfolding encode
  encode_fresh m = refl

  pub encode-Writes :
      (m : Dim) (w : P.Writer)
      → IsValid m
      → IsUint32 (length (wire m))
      → Writes P w (encode m (some w)) (wire m)
  unfolding encode
  encode-Writes m w (v₁, v₂) short =
      Writes-append P w _ _ _ _ (Writes-scalar P P.int64 w 8 m.size (omega arith) v₁)
        (Writes-scalar P P.string _ 18 m.name (omega arith) v₂)

  pub wire-Consumes :
      (m : Dim) → IsValid m → IsUint32 (length (wire m)) → Consumes P on_field empty (wire m) m
  unfolding on_field
  wire-Consumes m (v₁, v₂) short =
      Consumes-append P on_field _ _
        (Consumes-scalar_field P P.int64 on_field (λ o. record { size = o; name = none }) 8 m.size
          (omega arith) v₁ (λ r. refl))
        (Consumes-scalar_field P P.string on_field (λ o. record { size = m.size; name = o }) 18
          m.name (omega arith) v₂ (λ r. refl))

  abbrev pub parts : Parts P Dim
  parts = record {
    empty = empty;
    on_field = on_field;
    encode = encode;
    IsValid = IsValid;
    wire = wire;
    on_field-Ahead = on_field-Ahead;
    encode_fresh = encode_fresh;
    encode-Writes = encode-Writes;
    wire-Consumes = wire-Consumes;
  }

  abbrev pub codec : Codec P Dim
  codec = codec_of P parts
