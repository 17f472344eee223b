-- ===== src/Protobuf/Message.antt =====
-- What the cases of the switch in a `decode` of compiled.js do, and the bytes for which they do it.
use timemachine.Base.{ℕ, ◌%◌, ◌≡◌, ◌∙◌, ◌++◌, length}
use timemachine.Protobuf.Outcome.{Result, ok, ◌>>=◌, attempt}
use timemachine.Protobuf.Runtime.{Runtime, Scalar, Reader, IsUint32}
use timemachine.Protobuf.Loop.{Ahead, Ahead-bind, Ahead-done, Ahead-attempt_reader}
use timemachine.Protobuf.Writes.{sized}
use timemachine.Protobuf.Decoder.{Consumes, Consumes-field, read_sized}
use timemachine.Protobuf.Codec.{Codec, read_sized-wire}

-- `message.x = <a call of the reader>`
unfoldable pub store : {A M : Type 0} → Result (A × Reader) → (A → M) → Result (M × Reader)
store x set = x >>= λ (a, r). ok (set a, r)

pub Ahead-store :
    {A M : Type 0} {r : Reader} (x : Result (A × Reader)) (set : A → M)
    → Ahead r x
    → Ahead r (store x set)
unfolding store
Ahead-store x set h = Ahead-bind _ _ h λ a r'. Ahead-done r' (set a)

module _ (P : Runtime) where
  -- `reader.skipType(tag & 7)`
  unfoldable pub skip_field : {M : Type 0} → M → ℕ → Reader → Result (M × Reader)
  skip_field message tag r = attempt (P.skip_type (tag % 8) r) >>= λ r'. ok (message, r')

  pub Ahead-skip_field : {M : Type 0} (m : M) (tag : ℕ) (r : Reader) → Ahead r (skip_field m tag r)
  unfolding skip_field
  Ahead-skip_field m tag r =
      Ahead-attempt_reader _ _ (P.skip_type-forward (tag % 8) r) λ r'. Ahead-done r' m

  module _ {M : Type 0} (on_field : M → ℕ → Reader → Result (M × Reader)) where
    -- `f` is the message as a function of the field that is read.
    -- A round that stores a scalar.
    pub Consumes-scalar :
        {A : Type 0} {InRange : A → Type 0} (S : Scalar P.Writer P.buffers A InRange)
        → {m : M} (set : A → M) (tag : ℕ) (a : A) → IsUint32 tag
        → InRange a
        → ((r : Reader) → on_field m tag r ≡ store (attempt (S.read r)) set)
        → Consumes P on_field m (P.uint32.wire tag ++ S.wire a) (set a)
    unfolding store
    Consumes-scalar S set tag a small h step =
        Consumes-field P on_field tag (S.wire a) small
          λ r rest at. step r ∙ rw (S.read-wire r a rest h at)

    -- A round that stores a sub-message.
    pub Consumes-message :
        {A : Type 0} (C : Codec P A) {m : M} (set : A → M) (tag : ℕ) (a : A)
        → IsUint32 tag
        → C.IsValid a
        → IsUint32 (length (C.wire a))
        → ((r : Reader) → on_field m tag r ≡ store (read_sized P C.decode r) set)
        → Consumes P on_field m (P.uint32.wire tag ++ sized P (C.wire a)) (set a)
    unfolding store
    Consumes-message C set tag a small valid short step =
        Consumes-field P on_field tag (sized P (C.wire a)) small
          λ r rest at. step r ∙ rw (read_sized-wire P C a r rest valid short at)
