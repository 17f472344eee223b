-- ===== src/Protobuf/Unknown.antt =====
-- Fields that a message does not know, in front of its bytes and behind them: the `default` of the
-- switch in a `decode` of compiled.js.
use timemachine.Base.{ℕ, ◌/◌, ◌%◌, ◌≡◌, List, [], ◌∷◌, ◌++◌, Bool, false, none, length, All}
use timemachine.Protobuf.Outcome.{ok}
use timemachine.Protobuf.Runtime.{Runtime, Reader, IsUint32, Payload}
use timemachine.Protobuf.Decoder.{
  buffer, Consumes, Consumes-nil, Consumes-append, Consumes-skipped, decode_message,
  decode_message-buffer,
}
use timemachine.Protobuf.Message.{skip_field}
use timemachine.Protobuf.Build.{Parts}

module _ (P : Runtime) where
  -- Tags, each with the bytes of its value.
  abbrev pub wire_fields : List (ℕ × List ℕ) → List ℕ
  wire_fields [] = []
  wire_fields ((tag, payload) ∷ fields) = (P.uint32.wire tag ++ payload) ++ wire_fields fields

  -- A field with a number that is not known, and with a value of its wire type.
  abbrev pub IsUnknown : (ℕ → Bool) → ℕ × List ℕ → Type 0
  IsUnknown known (tag, payload) =
      IsUint32 tag × (known (tag / 8) ≡ false) × Payload P.uint32.wire (tag % 8) payload

  module _ {M : Type 0} (p : Parts P M) (known : ℕ → Bool)
      (skips : (m : M) (tag : ℕ) (r : Reader)
        → known (tag / 8) ≡ false
        → p.on_field m tag r ≡ skip_field P m tag r) where
    Consumes-unknown :
        (m : M) (fields : List (ℕ × List ℕ))
        → All (IsUnknown known) fields
        → Consumes P p.on_field m (wire_fields fields) m
    unfolding skip_field
    Consumes-unknown m [] h = Consumes-nil P p.on_field m
    Consumes-unknown m ((tag, payload) ∷ fields) ((small, new, shape), h) =
        Consumes-append P p.on_field (P.uint32.wire tag ++ payload) (wire_fields fields)
          (Consumes-skipped P p.on_field tag payload small shape (λ r. skips m tag r new))
          (Consumes-unknown m fields h)

    pub decode-unknown :
        (m : M) (before after : List (ℕ × List ℕ))
        → All (IsUnknown known) before
        → All (IsUnknown known) after
        → p.IsValid m
        → IsUint32 (length (p.wire m))
        → let bytes = wire_fields before ++ (p.wire m ++ wire_fields after) in
          decode_message P p.empty p.on_field (buffer bytes) none
          ≡ ok (m, record { buf = bytes; pos = length bytes })
    decode-unknown m before after hb ha valid short =
        decode_message-buffer P p.empty p.on_field p.on_field-Ahead m _ (
          Consumes-append P p.on_field (wire_fields before) _ (Consumes-unknown p.empty before hb) (
            Consumes-append P p.on_field (p.wire m) (wire_fields after)
              (p.wire-Consumes m valid short) (Consumes-unknown m after ha)))
