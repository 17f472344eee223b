-- ===== src/Protobuf/Optional.antt =====
-- Singular fields in the `encode` functions of compiled.js: a scalar or a sub-message that is written
-- if the message has it as an own property which is not null.
use timemachine.Base.{ℕ, ◌≤◌, ◌≡◌, List, [], ◌++◌, Option, none, some, length, length-append, arith}
use timemachine.Protobuf.Outcome.{attempt}
use timemachine.Protobuf.Runtime.{Runtime, Scalar, Reader, IsUint32}
use timemachine.Protobuf.Outcome.{Result}
use timemachine.Protobuf.Writes.{Writes, sized, Writes-nil, Writes-field}
use timemachine.Protobuf.Decoder.{Consumes, Consumes-nil, read_sized}
use timemachine.Protobuf.Codec.{Codec, Writes-message}
use timemachine.Protobuf.Message.{store, Consumes-scalar, Consumes-message}

abbrev pub InOption : {A : Type 0} → (A → Type 0) → Option A → Type 0
InOption InRange none = Unit {0}
InOption InRange (some a) = InRange a

module _ (P : Runtime) where
  module _ {A : Type 0} {InRange : A → Type 0} (S : Scalar P.Writer P.buffers A InRange) where
    -- `if (message.x != null && message.hasOwnProperty("x")) writer.uint32(tag).S(message.x)`
    abbrev pub put_scalar : ℕ → Option A → P.Writer → P.Writer
    put_scalar tag none w = w
    put_scalar tag (some a) w = S.put (P.uint32.put w tag) a

    abbrev pub wire_scalar : ℕ → Option A → List ℕ
    wire_scalar tag none = []
    wire_scalar tag (some a) = P.uint32.wire tag ++ S.wire a

    pub Writes-scalar :
        (w : P.Writer) (tag : ℕ) (o : Option A)
        → IsUint32 tag
        → InOption InRange o
        → Writes P w (put_scalar tag o w) (wire_scalar tag o)
    Writes-scalar w tag none small valid = Writes-nil P w
    Writes-scalar w tag (some a) small valid = Writes-field P S w tag a small valid

    -- `f` is the message as a function of the field.
    pub Consumes-scalar_field :
        {M : Type 0} (on_field : M → ℕ → Reader → Result (M × Reader)) (f : Option A → M)
        → (tag : ℕ) (o : Option A) → IsUint32 tag
        → InOption InRange o
        → ((r : Reader) → on_field (f none) tag r ≡ store (attempt (S.read r)) (λ a. f (some a)))
        → Consumes P on_field (f none) (wire_scalar tag o) (f o)
    Consumes-scalar_field on_field f tag none small valid step = Consumes-nil P on_field (f none)
    Consumes-scalar_field on_field f tag (some a) small valid step =
        Consumes-scalar P on_field S (λ a'. f (some a')) tag a small valid step

  module _ {A : Type 0} (C : Codec P A) where
    -- `if (message.x != null && message.hasOwnProperty("x"))`
    -- `  C.encode(message.x, writer.uint32(tag).fork()).ldelim()`
    abbrev pub put_message : ℕ → Option A → P.Writer → P.Writer
    put_message tag none w = w
    put_message tag (some a) w = P.ldelim (C.encode a (some (P.fork (P.uint32.put w tag))))

    abbrev pub wire_message : ℕ → Option A → List ℕ
    wire_message tag none = []
    wire_message tag (some a) = P.uint32.wire tag ++ sized P (C.wire a)

    -- A sub-message is shorter than what it stands in.
    pub length-sized_le :
        (tag : ℕ) (a : A) → length (C.wire a) ≤ length (P.uint32.wire tag ++ sized P (C.wire a))
    length-sized_le tag a = omega (
      arith,
      length-append (P.uint32.wire tag) (sized P (C.wire a)),
      length-append (P.uint32.wire (length (C.wire a))) (C.wire a),
    )

    pub Writes-message_field :
        (w : P.Writer) (tag : ℕ) (o : Option A)
        → IsUint32 tag
        → InOption C.IsValid o
        → IsUint32 (length (wire_message tag o))
        → Writes P w (put_message tag o w) (wire_message tag o)
    Writes-message_field w tag none small valid short = Writes-nil P w
    Writes-message_field w tag (some a) small valid short =
        Writes-message P C w tag a small valid (omega (arith, length-sized_le tag a))

    pub Consumes-message_field :
        {M : Type 0} (on_field : M → ℕ → Reader → Result (M × Reader)) (f : Option A → M)
        → (tag : ℕ) (o : Option A) → IsUint32 tag
        → InOption C.IsValid o
        → IsUint32 (length (wire_message tag o))
        → ((r : Reader)
            → on_field (f none) tag r ≡ store (read_sized P C.decode r) (λ a. f (some a)))
        → Consumes P on_field (f none) (wire_message tag o) (f o)
    Consumes-message_field on_field f tag none small valid short step =
        Consumes-nil P on_field (f none)
    Consumes-message_field on_field f tag (some a) small valid short step =
        Consumes-message P on_field C (λ a'. f (some a')) tag a small valid
          (omega (arith, length-sized_le tag a)) step
