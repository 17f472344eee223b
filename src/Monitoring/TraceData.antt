-- ===== src/Monitoring/TraceData.antt =====
-- `hydrosphere.monitoring.TraceData` of tsclient/recstore-ts/src/compiled.js.
use timemachine.Base.{
  ℕ, ◌/◌, ◌≡◌, refl, ◌++◌, List, Option, none, some, length, if◌then◌else◌, ◌==◌, arith,
}
use timemachine.Protobuf.Outcome.{Result, attempt}
use timemachine.Protobuf.Runtime.{Runtime, Reader, IsUint32, IsLong}
use timemachine.Protobuf.Loop.{Ahead, Ahead-if, Ahead-read}
use timemachine.Protobuf.Writes.{Writes, Writes-append}
use timemachine.Protobuf.Decoder.{Source, Consumes, Consumes-append, decode_message}
use timemachine.Protobuf.Codec.{Codec, or_create, encode_delimited_by, decode_delimited_by}
use timemachine.Protobuf.Message.{store, Ahead-store, skip_field, Ahead-skip_field}
use timemachine.Protobuf.Optional.{
  InOption, put_scalar, wire_scalar, Writes-scalar, Consumes-scalar_field,
}
use timemachine.Protobuf.Build.{Parts, codec_of}

-- An own property that is not null is `some`; `none` reads as the prototype's default.
pub record TraceData : Type 0 where
  pub ts : Option ℕ
  pub uid : Option ℕ

-- `new TraceData()`
abbrev pub empty : TraceData
empty = record { ts = none; uid = none }

abbrev pub IsValid : TraceData → Type 0
IsValid message = InOption IsLong message.ts × InOption IsLong message.uid

module _ (P : Runtime) where
  unfoldable pub encode : TraceData → Option P.Writer → P.Writer
  encode message writer =
      let w₀ = or_create P writer in
      let w₁ = put_scalar P P.int64 8 message.ts w₀ in put_scalar P P.int64 16 message.uid w₁

  -- `switch (tag >>> 3)`
  unfoldable pub on_field : TraceData → ℕ → Reader → Result (TraceData × Reader)
  on_field message tag r =
      if tag / 8 == 1
      then store (attempt (P.int64.read r)) (λ v. record message { ts = some v })
      else if tag / 8 == 2
      then store (attempt (P.int64.read r)) (λ v. record message { uid = some v })
      else skip_field P message tag r

  abbrev pub decode : Source → Option ℕ → Result (TraceData × Reader)
  decode = decode_message P empty on_field

  abbrev pub encode_delimited : TraceData → Option P.Writer → P.Writer
  encode_delimited = encode_delimited_by P encode

  abbrev pub decode_delimited : Source → Result (TraceData × Reader)
  decode_delimited = decode_delimited_by P decode

  -- The bytes of a message.
  abbrev pub wire : TraceData → List ℕ
  wire message = wire_scalar P P.int64 8 message.ts ++ (wire_scalar P P.int64 16 message.uid)

  pub on_field-Ahead : (m : TraceData) (tag : ℕ) (r : Reader) → Ahead r (on_field m tag r)
  unfolding on_field
  on_field-Ahead m tag r = Ahead-if (tag / 8 == 1) (Ahead-store _ _ (Ahead-read P P.int64 r)) (
      Ahead-if (tag / 8 == 2) (Ahead-store _ _ (Ahead-read P P.int64 r))
        (Ahead-skip_field P m tag r))

  pub encode_fresh : (m : TraceData) → encode m none ≡ encode m (some P.create_writer)
  unfolding encode
  encode_fresh m = refl

  pub encode-Writes :
      (m : TraceData) (w : P.Writer)
      → IsValid m
      → IsUint32 (length (wire m))
      → Writes P w (encode m (some w)) (wire m)
  unfolding encode
  encode-Writes m w (v₁, v₂) short =
      Writes-append P w _ _ _ _ (Writes-scalar P P.int64 w 8 m.ts (omega arith) v₁)
        (Writes-scalar P P.int64 _ 16 m.uid (omega arith) v₂)

  pub wire-Consumes :
      (m : TraceData)
      → IsValid m
      → IsUint32 (length (wire m))
      → Consumes P on_field empty (wire m) m
  unfolding on_field
  wire-Consumes m (v₁, v₂) short =
      Consumes-append P on_field _ _
        (Consumes-scalar_field P P.int64 on_field (λ o. record { ts = o; uid = none }) 8 m.ts
          (omega arith) v₁ (λ r. refl))
        (Consumes-scalar_field P P.int64 on_field (λ o. record { ts = m.ts; uid = o }) 16 m.uid
          (omega arith) v₂ (λ r. refl))

  abbrev pub parts : Parts P TraceData
  parts = record {
    empty = empty;
    on_field = on_field;
    encode = encode;
    IsValid = IsValid;
    wire = wire;
    on_field-Ahead = on_field-Ahead;
    encode_fresh = encode_fresh;
    encode-Writes = encode-Writes;
    wire-Consumes = wire-Consumes;
  }

  abbrev pub codec : Codec P TraceData
  codec = codec_of P parts
