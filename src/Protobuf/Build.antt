-- ===== src/Protobuf/Build.antt =====
-- The codec of a message type from what is proved of its switch and of its `encode`.
use timemachine.Base.{ℕ, ◌≡◌, List, Option, none, some, length}
use timemachine.Protobuf.Outcome.{Result}
use timemachine.Protobuf.Runtime.{Runtime, Reader, IsUint32}
use timemachine.Protobuf.Loop.{Ahead}
use timemachine.Protobuf.Writes.{Writes}
use timemachine.Protobuf.Decoder.{
  Consumes, decode_message, decode_message-sized, decode_message-buffer, decode_message-Ahead,
}
use timemachine.Protobuf.Codec.{Codec}

module _ (P : Runtime) where
  -- The parts of a message type: `new M()`, its switch, its `encode`, and the bytes of a message.
  pub record Parts (M : Type 0) : Type 1 where
    pub empty : M
    pub on_field : M → ℕ → Reader → Result (M × Reader)
    pub encode : M → Option P.Writer → P.Writer
    pub IsValid : M → Type 0
    pub wire : M → List ℕ
    pub on_field-Ahead : (m : M) (tag : ℕ) (r : Reader) → Ahead r (on_field m tag r)
    pub encode_fresh : (m : M) → encode m none ≡ encode m (some P.create_writer)
    pub encode-Writes :
        (m : M) (w : P.Writer)
        → IsValid m
        → IsUint32 (length (wire m))
        → Writes P w (encode m (some w)) (wire m)
    pub wire-Consumes :
        (m : M) → IsValid m → IsUint32 (length (wire m)) → Consumes P on_field empty (wire m) m

  abbrev pub codec_of : {M : Type 0} → Parts M → Codec P M
  codec_of p = record {
    IsValid = p.IsValid;
    wire = p.wire;
    encode = p.encode;
    decode = decode_message P p.empty p.on_field;
    encode-Writes = p.encode-Writes;
    decode-wire = λ m r rest valid short.
        decode_message-sized P p.empty p.on_field p.on_field-Ahead m (p.wire m) r rest
          (p.wire-Consumes m valid short);
    decode-buffer = λ m valid short.
        decode_message-buffer P p.empty p.on_field p.on_field-Ahead m (p.wire m)
          (p.wire-Consumes m valid short);
    decode-Ahead = decode_message-Ahead P p.empty p.on_field p.on_field-Ahead;
    encode_fresh = p.encode_fresh;
  }
