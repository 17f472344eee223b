-- ===== src/Wrapper/Int64Value.antt =====
-- `google.protobuf.Int64Value` of tsclient/recstore-ts/src/compiled.js.
use timemachine.Base.{
  ℕ, ◌/◌, ◌≡◌, refl, List, Option, none, some, length, if◌then◌else◌, ◌==◌, arith,
}
use timemachine.Protobuf.Outcome.{Result, attempt}
use timemachine.Protobuf.Runtime.{Runtime, Reader, IsUint32, IsLong}
use timemachine.Protobuf.Loop.{Ahead, Ahead-if, Ahead-read}
use timemachine.Protobuf.Writes.{Writes}
use timemachine.Protobuf.Decoder.{Source, Consumes, decode_message}
use timemachine.Protobuf.Codec.{Codec, or_create, encode_delimited_by, decode_delimited_by}
use timemachine.Protobuf.Message.{store, Ahead-store, skip_field, Ahead-skip_field}
use timemachine.Protobuf.Optional.{
  InOption, put_scalar, wire_scalar, Writes-scalar, Consumes-scalar_field,
}
use timemachine.Protobuf.Build.{Parts, codec_of}

-- An own property that is not null is `some`; `none` reads as the prototype's default.
pub record Int64Value : Type 0 where
  pub value : Option ℕ

-- `new Int64Value()`
abbrev pub empty : Int64Value
empty = record { value = none }

abbrev pub IsValid : Int64Value → Type 0
IsValid message = InOption IsLong message.value

module _ (P : Runtime) where
  unfoldable pub encode : Int64Value → Option P.Writer → P.Writer
  encode message writer = put_scalar P P.int64 8 message.value (or_create P writer)

  -- `switch (tag >>> 3)`
  unfoldable pub on_field : Int64Value → ℕ → Reader → Result (Int64Value × Reader)
  on_field message tag r =
      if tag / 8 == 1
      then store (attempt (P.int64.read r)) (λ v. record message { value = some v })
      else skip_field P message tag r

  abbrev pub decode : Source → Option ℕ → Result (Int64Value × Reader)
  decode = decode_message P empty on_field

  abbrev pub encode_delimited : Int64Value → Option P.Writer → P.Writer
  encode_delimited = encode_delimited_by P encode

  abbrev pub decode_delimited : Source → Result (Int64Value × Reader)
  decode_delimited = decode_delimited_by P decode

  -- The bytes of a message.
  abbrev pub wire : Int64Value → List ℕ
  wire message = wire_scalar P P.int64 8 message.value

  pub on_field-Ahead : (m : Int64Value) (tag : ℕ) (r : Reader) → Ahead r (on_field m tag r)
  unfolding on_field
  on_field-Ahead m tag r =
      Ahead-if (tag / 8 == 1) (Ahead-store _ _ (Ahead-read P P.int64 r))
        (Ahead-skip_field P m tag r)

  pub encode_fresh : (m : Int64Value) → encode m none ≡ encode m (some P.create_writer)
  unfolding encode
  encode_fresh m = refl

  pub encode-Writes :
      (m : Int64Value) (w : P.Writer)
      → IsValid m
      → IsUint32 (length (wire m))
      → Writes P w (encode m (some w)) (wire m)
  unfolding encode
  encode-Writes m w valid short = Writes-scalar P P.int64 w 8 m.value (omega arith) valid

  pub wire-Consumes :
      (m : Int64Value)
      → IsValid m
      → IsUint32 (length (wire m))
      → Consumes P on_field empty (wire m) m
  unfolding on_field
  wire-Consumes m valid short =
      Consumes-scalar_field P P.int64 on_field (λ o. record { value = o }) 8 m.value (omega arith)
        valid (λ r. refl)

  abbrev pub parts : Parts P Int64Value
  parts = record {
    empty = empty;
    on_field = on_field;
    encode = encode;
    IsValid = IsValid;
    wire = wire;
    on_field-Ahead = on_field-Ahead;
    encode_fresh = encode_fresh;
    encode-Writes = encode-Writes;
    wire-Consumes = wire-Consumes;
  }

  abbrev pub codec : Codec P Int64Value
  codec = codec_of P parts
