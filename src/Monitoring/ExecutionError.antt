-- ===== src/Monitoring/ExecutionError.antt =====
-- `hydrosphere.monitoring.ExecutionError` of tsclient/recstore-ts/src/compiled.js.
use timemachine.Base.{
  ℕ, ◌/◌, ◌≡◌, refl, List, Option, none, some, length, if◌then◌else◌, ◌==◌, arith,
}
use timemachine.Protobuf.Outcome.{Text, Result, attempt}
use timemachine.Protobuf.Runtime.{Runtime, Reader, IsUint32, IsText}
use timemachine.Protobuf.Loop.{Ahead, Ahead-if, Ahead-read}
use timemachine.Protobuf.Writes.{Writes}
use timemachine.Protobuf.Decoder.{Source, Consumes, decode_message}
use timemachine.Protobuf.Codec.{Codec, or_create, encode_delimited_by, decode_delimited_by}
use timemachine.Protobuf.Message.{store, Ahead-store, skip_field, Ahead-skip_field}
use timemachine.Protobuf.Optional.{
  InOption, put_scalar, wire_scalar, Writes-scalar, Consumes-scalar_field,
}
use timemachine.Protobuf.Build.{Parts, codec_of}

-- An own property that is not null is `some`; `none` reads as the prototype's default.
pub record ExecutionError : Type 0 where
  pub error_message : Option Text

-- `new ExecutionError()`
abbrev pub empty : ExecutionError
empty = record { error_message = none }

abbrev pub IsValid : ExecutionError → Type 0
IsValid message = InOption IsText message.error_message

module _ (P : Runtime) where
  unfoldable pub encode : ExecutionError → Option P.Writer → P.Writer
  encode message writer = put_scalar P P.string 10 message.error_message (or_create P writer)

  -- `switch (tag >>> 3)`
  unfoldable pub on_field : ExecutionError → ℕ → Reader → Result (ExecutionError × Reader)
  on_field message tag r =
      if tag / 8 == 1
      then store (attempt (P.string.read r)) (λ v. record message { error_message = some v })
      else skip_field P message tag r

  abbrev pub decode : Source → Option ℕ → Result (ExecutionError × Reader)
  decode = decode_message P empty on_field

  abbrev pub encode_delimited : ExecutionError → Option P.Writer → P.Writer
  encode_delimited = encode_delimited_by P encode

  abbrev pub decode_delimited : Source → Result (ExecutionError × Reader)
  decode_delimited = decode_delimited_by P decode

  -- The bytes of a message.
  abbrev pub wire : ExecutionError → List ℕ
  wire message = wire_scalar P P.string 10 message.error_message

  pub on_field-Ahead : (m : ExecutionError) (tag : ℕ) (r : Reader) → Ahead r (on_field m tag r)
  unfolding on_field
  on_field-Ahead m tag r =
      Ahead-if (tag / 8 == 1) (Ahead-store _ _ (Ahead-read P P.string r))
        (Ahead-skip_field P m tag r)

  pub encode_fresh : (m : ExecutionError) → encode m none ≡ encode m (some P.create_writer)
  unfolding encode
  encode_fresh m = refl

  pub encode-Writes :
      (m : ExecutionError) (w : P.Writer)
      → IsValid m
      → IsUint32 (length (wire m))
      → Writes P w (encode m (some w)) (wire m)
  unfolding encode
  encode-Writes m w valid short = Writes-scalar P P.string w 10 m.error_message (omega arith) valid

  pub wire-Consumes :
      (m : ExecutionError)
      → IsValid m
      → IsUint32 (length (wire m))
      → Consumes P on_field empty (wire m) m
  unfolding on_field
  wire-Consumes m valid short =
      Consumes-scalar_field P P.string on_field (λ o. record { error_message = o }) 10
        m.error_message (omega arith) valid (λ r. refl)

  abbrev pub parts : Parts P ExecutionError
  parts = record {
    empty = empty;
    on_field = on_field;
    encode = encode;
    IsValid = IsValid;
    wire = wire;
    on_field-Ahead = on_field-Ahead;
    encode_fresh = encode_fresh;
    encode-Writes = encode-Writes;
    wire-Consumes = wire-Consumes;
  }

  abbrev pub codec : Codec P ExecutionError
  codec = codec_of P parts
