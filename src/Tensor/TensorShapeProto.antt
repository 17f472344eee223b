-- ===== src/Tensor/TensorShapeProto.antt =====
-- `hydrosphere.tensorflow.TensorShapeProto` of tsclient/recstore-ts/src/compiled.js.
use timemachine.Base.{
  ℕ, ◌/◌, ◌≡◌, refl, ◌++◌, List, [], Option, none, some, Bool, length, All, lengths, if◌then◌else◌,
  ◌==◌, arith,
}
use timemachine.Protobuf.Outcome.{Result, attempt}
use timemachine.Protobuf.Runtime.{Runtime, Reader, IsUint32, AnyBool}
use timemachine.Protobuf.Loop.{Ahead, Ahead-if, Ahead-read}
use timemachine.Protobuf.Writes.{Writes, Writes-append}
use timemachine.Protobuf.Decoder.{Source, Consumes, Consumes-append, decode_message, read_sized}
use timemachine.Protobuf.Codec.{
  Codec, or_create, encode_delimited_by, decode_delimited_by, read_sized-Ahead,
}
use timemachine.Protobuf.Message.{store, Ahead-store, skip_field, Ahead-skip_field}
use timemachine.Protobuf.Optional.{
  InOption, put_scalar, wire_scalar, Writes-scalar, Consumes-scalar_field,
}
use timemachine.Protobuf.Repeated.{
  put_messages, wire_messages, append_item, Writes-messages, Consumes-messages,
}
use timemachine.Protobuf.Build.{Parts, codec_of}
use timemachine.Tensor.Dim
use timemachine.Tensor.Dim.{Dim}

-- An own property that is not null is `some`; `none` reads as the prototype's default.
pub record TensorShapeProto : Type 0 where
  pub dim : List Dim
  pub unknown_rank : Option Bool

-- `new TensorShapeProto()`
abbrev pub empty : TensorShapeProto
empty = record { dim = []; unknown_rank = none }

abbrev pub IsValid : TensorShapeProto → Type 0
IsValid message = All Dim.IsValid message.dim × InOption AnyBool message.unknown_rank

module _ (P : Runtime) where
  unfoldable pub encode : TensorShapeProto → Option P.Writer → P.Writer
  encode message writer =
      let w₀ = or_create P writer in
      let w₁ = put_messages P (Dim.codec P) 18 message.dim w₀ in
      put_scalar P P.bool 24 message.unknown_rank w₁

  -- `switch (tag >>> 3)`
  unfoldable pub on_field : TensorShapeProto → ℕ → Reader → Result (TensorShapeProto × Reader)
  on_field message tag r =
      if tag / 8 == 2
      then store (read_sized P (Dim.decode P) r)
          (λ v. record message { dim = append_item message.dim v })
      else if tag / 8 == 3
      then store (attempt (P.bool.read r)) (λ v. record message { unknown_rank = some v })
      else skip_field P message tag r

  abbrev pub decode : Source → Option ℕ → Result (TensorShapeProto × Reader)
  decode = decode_message P empty on_field

  abbrev pub encode_delimited : TensorShapeProto → Option P.Writer → P.Writer
  encode_delimited = encode_delimited_by P encode

  abbrev pub decode_delimited : Source → Result (TensorShapeProto × Reader)
  decode_delimited = decode_delimited_by P decode

  -- The bytes of a message.
  abbrev pub wire : TensorShapeProto → List ℕ
  wire message =
      wire_messages P (Dim.codec P) 18 message.dim ++ (wire_scalar P P.bool 24 message.unknown_rank)

  pub on_field-Ahead : (m : TensorShapeProto) (tag : ℕ) (r : Reader) → Ahead r (on_field m tag r)
  unfolding on_field
  on_field-Ahead m tag r =
      Ahead-if (tag / 8 == 2) (Ahead-store _ _ (read_sized-Ahead P (Dim.codec P) r)) (
        Ahead-if (tag / 8 == 3) (Ahead-store _ _ (Ahead-read P P.bool r))
          (Ahead-skip_field P m tag r))

  pub encode_fresh : (m : TensorShapeProto) → encode m none ≡ encode m (some P.create_writer)
  unfolding encode
  encode_fresh m = refl

  pub encode-Writes :
      (m : TensorShapeProto) (w : P.Writer)
      → IsValid m
      → IsUint32 (length (wire m))
      → Writes P w (encode m (some w)) (wire m)
  unfolding encode
  encode-Writes m w (v₁, v₂) short =
      Writes-append P w _ _ _ _
        (Writes-messages P (Dim.codec P) 18 m.dim w (omega arith) v₁ (omega lengths))
        (Writes-scalar P P.bool _ 24 m.unknown_rank (omega arith) v₂)

  pub wire-Consumes :
      (m : TensorShapeProto)
      → IsValid m
      → IsUint32 (length (wire m))
      → Consumes P on_field empty (wire m) m
  unfolding on_field
  wire-Consumes m (v₁, v₂) short =
      Consumes-append P on_field _ _
        (Consumes-messages P (Dim.codec P) on_field (λ o. record { dim = o; unknown_rank = none })
          18 [] m.dim (omega arith) v₁ (omega lengths) (λ done r. refl))
        (Consumes-scalar_field P P.bool on_field (λ o. record { dim = m.dim; unknown_rank = o }) 24
          m.unknown_rank (omega arith) v₂ (λ r. refl))

  abbrev pub parts : Parts P TensorShapeProto
  parts = record {
    empty = empty;
    on_field = on_field;
    encode = encode;
    IsValid = IsValid;
    wire = wire;
    on_field-Ahead = on_field-Ahead;
    encode_fresh = encode_fresh;
    encode-Writes = encode-Writes;
    wire-Consumes = wire-Consumes;
  }

  abbrev pub codec : Codec P TensorShapeProto
  codec = codec_of P parts
