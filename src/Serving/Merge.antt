-- ===== src/Serving/Merge.antt =====
-- `ModelSpec.decode` of tsclient/recstore-ts/src/compiled.js on the bytes of two messages, one behind
-- the other.
use timemachine.Base.{
  ℕ, ◌≡◌, refl, sym, ap, ap₂, subst, ◌++◌, Option, none, some, length, lengths, arith,
}
use timemachine.Protobuf.Outcome.{Result, ok, attempt}
use timemachine.Protobuf.Runtime.{Runtime, Scalar, Reader, Buffers, IsUint32}
use timemachine.Protobuf.Codec.{Codec}
use timemachine.Protobuf.Decoder.{
  buffer, read_sized, Consumes, Consumes-nil, Consumes-append, decode_message-buffer,
}
use timemachine.Protobuf.Message.{store, Consumes-scalar, Consumes-message}
use timemachine.Protobuf.Optional.{InOption, wire_scalar, wire_message, length-sized_le}
use timemachine.Protobuf.RoundTrip.{finish, encode_fresh-buffers}
use timemachine.Wrapper.Int64Value
use timemachine.Serving.ModelSpec
use timemachine.Serving.ModelSpec.{ModelSpec}

-- The later value, if there is one.
abbrev pub later : {A : Type 0} → Option A → Option A → Option A
later a none = a
later a (some b) = some b

module _ (P : Runtime) {M : Type 0} (on_field : M → ℕ → Reader → Result (M × Reader)) where
  -- `f` is the message as a function of the field.
  Consumes-scalar_over :
      {A : Type 0} {InRange : A → Type 0} (S : Scalar P.Writer P.buffers A InRange)
      → (f : Option A → M) (tag : ℕ) (a o : Option A) → IsUint32 tag
      → InOption InRange o
      → ((r : Reader) → on_field (f a) tag r ≡ store (attempt (S.read r)) (λ v. f (some v)))
      → Consumes P on_field (f a) (wire_scalar P S tag o) (f (later a o))
  Consumes-scalar_over S f tag a none small valid step = Consumes-nil P on_field (f a)
  Consumes-scalar_over S f tag a (some b) small valid step =
      Consumes-scalar P on_field S (λ v. f (some v)) tag b small valid step

  Consumes-message_over :
      {A : Type 0} (C : Codec P A) (f : Option A → M) (tag : ℕ) (a o : Option A)
      → IsUint32 tag
      → InOption C.IsValid o
      → IsUint32 (length (wire_message P C tag o))
      → ((r : Reader) → on_field (f a) tag r ≡ store (read_sized P C.decode r) (λ v. f (some v)))
      → Consumes P on_field (f a) (wire_message P C tag o) (f (later a o))
  Consumes-message_over C f tag a none small valid short step = Consumes-nil P on_field (f a)
  Consumes-message_over C f tag a (some b) small valid short step =
      Consumes-message P on_field C (λ v. f (some v)) tag b small valid
        (omega (arith, length-sized_le P C tag b)) step

-- Field by field.
abbrev pub merged : ModelSpec → ModelSpec → ModelSpec
merged a b = record {
  name = later a.name b.name;
  version = later a.version b.version;
  signature_name = later a.signature_name b.signature_name;
}

module _ (P : Runtime) where
  Consumes-second :
      (a b : ModelSpec)
      → ModelSpec.IsValid b
      → IsUint32 (length (ModelSpec.wire P b))
      → Consumes P (ModelSpec.on_field P) a (ModelSpec.wire P b) (merged a b)
  unfolding ModelSpec.on_field
  Consumes-second a b (v₁, v₂, v₃) short =
      Consumes-append P (ModelSpec.on_field P) _ _
        (Consumes-scalar_over P (ModelSpec.on_field P) P.string (λ o. record a { name = o }) 10
          a.name b.name (omega arith) v₁ (λ r. refl))
        (Consumes-append P (ModelSpec.on_field P) _ _
          (Consumes-message_over P (ModelSpec.on_field P) (Int64Value.codec P)
            (λ o. record a { name = later a.name b.name; version = o }) 18 a.version b.version
            (omega arith) v₂ (omega lengths) (λ r. refl))
          (Consumes-scalar_over P (ModelSpec.on_field P) P.string
            (λ o. record (merged a b) { signature_name = o }) 26 a.signature_name b.signature_name
            (omega arith) v₃ (λ r. refl)))

  written :
      (m : ModelSpec)
      → ModelSpec.IsValid m
      → IsUint32 (length (ModelSpec.wire P m))
      → finish P (ModelSpec.encode P m none) ≡ ModelSpec.wire P m
  written m valid short =
      ap Buffers.written (encode_fresh-buffers P (ModelSpec.codec P) m valid short)

  -- `ModelSpec.decode` of the bytes of two messages, one behind the other, returns the message with
  -- each field of the second that is set, and the field of the first otherwise. The version, which
  -- is a message itself, is replaced as a whole. The texts and numbers of both must be in range,
  -- and each shorter than 2 ^ 32 bytes.
  pub decode-encode_append_model_spec :
      (a b : ModelSpec)
      → ModelSpec.IsValid a
      → ModelSpec.IsValid b
      → IsUint32 (length (ModelSpec.wire P a))
      → IsUint32 (length (ModelSpec.wire P b))
      → let bytes = finish P (ModelSpec.encode P a none) ++ finish P (ModelSpec.encode P b none) in
        ModelSpec.decode P (buffer bytes) none
        ≡ ok (merged a b, record { buf = bytes; pos = length bytes })
  decode-encode_append_model_spec a b va vb sa sb =
      subst
        (λ bytes.
          ModelSpec.decode P (buffer bytes) none
          ≡ ok (merged a b, record { buf = bytes; pos = length bytes }))
        (sym (ap₂ (λ x y. x ++ y) (written a va sa) (written b vb sb)))
        (decode_message-buffer P ModelSpec.empty (ModelSpec.on_field P) (ModelSpec.on_field-Ahead P)
          (merged a b) _
          (Consumes-append P (ModelSpec.on_field P) (ModelSpec.wire P a) (ModelSpec.wire P b)
            (ModelSpec.wire-Consumes P a va sa) (Consumes-second a b vb sb)))
