-- ===== src/Tensor/MapTensorData.antt =====
-- `hydrosphere.tensorflow.MapTensorData` of tsclient/recstore-ts/src/compiled.js.
-- `A` is the type of the tensors inside, and `C` their codec: Tensor/Nested.antt ties the knot.
use timemachine.Base.{
  ℕ, ◌/◌, ◌≡◌, refl, List, [], Option, none, some, length, All, lengths, if◌then◌else◌, ◌==◌, arith,
}
use timemachine.JsObject.{DistinctFrom}
use timemachine.Protobuf.Outcome.{Text, Result}
use timemachine.Protobuf.Runtime.{Runtime, Reader, IsUint32}
use timemachine.Protobuf.Loop.{Ahead, Ahead-if}
use timemachine.Protobuf.Writes.{Writes}
use timemachine.Protobuf.Decoder.{Source, Consumes, decode_message}
use timemachine.Protobuf.Codec.{Codec, or_create, encode_delimited_by, decode_delimited_by}
use timemachine.Protobuf.Message.{store, Ahead-store, skip_field, Ahead-skip_field}
use timemachine.Protobuf.MapField.{
  put_entries, wire_entries, read_entry, set_entry, IsEntry, read_entry-Ahead, Writes-entries,
  Consumes-entries,
}
use timemachine.Protobuf.Build.{Parts, codec_of}

-- An own property that is not null is `some`; `none` reads as the prototype's default.
pub record MapTensorData (A : Type 0) : Type 0 where
  pub subtensors : List (Text × A)

-- `new MapTensorData()`
abbrev pub empty : {A : Type 0} → MapTensorData A
empty = record { subtensors = [] }

module _ (P : Runtime) {A : Type 0} (C : Codec P A) where
  abbrev pub IsValid : MapTensorData A → Type 0
  IsValid message = (All (IsEntry P C) message.subtensors × DistinctFrom [] message.subtensors)

  unfoldable pub encode : MapTensorData A → Option P.Writer → P.Writer
  encode message writer = put_entries P C 10 message.subtensors (or_create P writer)

  -- `switch (tag >>> 3)`
  unfoldable pub on_field : MapTensorData A → ℕ → Reader → Result (MapTensorData A × Reader)
  on_field message tag r =
      if tag / 8 == 1
      then store (read_entry P C r)
          (λ v. record message { subtensors = set_entry P C message.subtensors v })
      else skip_field P message tag r

  abbrev pub decode : Source → Option ℕ → Result (MapTensorData A × Reader)
  decode = decode_message P empty on_field

  abbrev pub encode_delimited : MapTensorData A → Option P.Writer → P.Writer
  encode_delimited = encode_delimited_by P encode

  abbrev pub decode_delimited : Source → Result (MapTensorData A × Reader)
  decode_delimited = decode_delimited_by P decode

  -- The bytes of a message.
  abbrev pub wire : MapTensorData A → List ℕ
  wire message = wire_entries P C 10 message.subtensors

  pub on_field-Ahead : (m : MapTensorData A) (tag : ℕ) (r : Reader) → Ahead r (on_field m tag r)
  unfolding on_field
  on_field-Ahead m tag r =
      Ahead-if (tag / 8 == 1) (Ahead-store _ _ (read_entry-Ahead P C r))
        (Ahead-skip_field P m tag r)

  pub encode_fresh : (m : MapTensorData A) → encode m none ≡ encode m (some P.create_writer)
  unfolding encode
  encode_fresh m = refl

  pub encode-Writes :
      (m : MapTensorData A) (w : P.Writer)
      → IsValid m
      → IsUint32 (length (wire m))
      → Writes P w (encode m (some w)) (wire m)
  unfolding encode
  encode-Writes m w (valid, d₁) short =
      Writes-entries P C 10 m.subtensors w (omega arith) valid (omega lengths)

  pub wire-Consumes :
      (m : MapTensorData A)
      → IsValid m
      → IsUint32 (length (wire m))
      → Consumes P on_field empty (wire m) m
  unfolding on_field
  wire-Consumes m (valid, d₁) short =
      Consumes-entries P C on_field (λ o. record { subtensors = o }) 10 [] m.subtensors
        (omega arith) valid d₁ (omega lengths) (λ done r. refl)

  abbrev pub parts : Parts P (MapTensorData A)
  parts = record {
    empty = empty;
    on_field = on_field;
    encode = encode;
    IsValid = IsValid;
    wire = wire;
    on_field-Ahead = on_field-Ahead;
    encode_fresh = encode_fresh;
    encode-Writes = encode-Writes;
    wire-Consumes = wire-Consumes;
  }

  abbrev pub codec : Codec P (MapTensorData A)
  codec = codec_of P parts
