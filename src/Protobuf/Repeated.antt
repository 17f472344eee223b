-- ===== src/Protobuf/Repeated.antt =====
-- Repeated fields of sub-messages in the `encode` and `decode` functions of compiled.js.
use timemachine.Base.{
  ℕ, ◌≡◌, subst, List, [], ◌∷◌, ◌++◌, length, All, lengths, some, append_assoc, append-nil,
}
use timemachine.Protobuf.Outcome.{Result}
use timemachine.Protobuf.Runtime.{Runtime, Reader, IsUint32}
use timemachine.Protobuf.Writes.{Writes, sized, Writes-nil, Writes-append}
use timemachine.Protobuf.Decoder.{Consumes, Consumes-nil, Consumes-append, read_sized}
use timemachine.Protobuf.Codec.{Codec, Writes-message}
use timemachine.Protobuf.Message.{store, Consumes-message}
use timemachine.Protobuf.Optional.{length-sized_le}

-- `if (!(message.xs && message.xs.length)) message.xs = []; message.xs.push(x)`
unfoldable pub append_item : {A : Type 0} → List A → A → List A
append_item xs x = xs ++ (x ∷ [])

module _ (P : Runtime) {A : Type 0} (C : Codec P A) where
  -- `for (var i = 0; i < message.xs.length; ++i)`
  -- `  C.encode(message.xs[i], writer.uint32(tag).fork()).ldelim()`
  abbrev pub put_messages : ℕ → List A → P.Writer → P.Writer
  put_messages tag [] w = w
  put_messages tag (a ∷ as') w =
      put_messages tag as' (P.ldelim (C.encode a (some (P.fork (P.uint32.put w tag)))))

  abbrev pub wire_messages : ℕ → List A → List ℕ
  wire_messages tag [] = []
  wire_messages tag (a ∷ as') = (P.uint32.wire tag ++ sized P (C.wire a)) ++ wire_messages tag as'

  pub Writes-messages :
      (tag : ℕ) (l : List A) (w : P.Writer)
      → IsUint32 tag
      → All C.IsValid l
      → IsUint32 (length (wire_messages tag l))
      → Writes P w (put_messages tag l w) (wire_messages tag l)
  Writes-messages tag [] w small valid short = Writes-nil P w
  Writes-messages tag (a ∷ l) w small (v, vs) short =
      Writes-append P w _ _ _ _
        (Writes-message P C w tag a small v (omega (lengths, length-sized_le P C tag a)))
        (Writes-messages tag l _ small vs (omega lengths))

  -- `f` is the message as a function of the list, which grows at its end.
  pub Consumes-messages :
      {M : Type 0} (on_field : M → ℕ → Reader → Result (M × Reader)) (f : List A → M)
      → (tag : ℕ) (done l : List A) → IsUint32 tag
      → All C.IsValid l
      → IsUint32 (length (wire_messages tag l))
      → ((done : List A) (r : Reader)
          → on_field (f done) tag r ≡ store (read_sized P C.decode r) (λ a. f (append_item done a)))
      → Consumes P on_field (f done) (wire_messages tag l) (f (done ++ l))
  unfolding append_item
  Consumes-messages on_field f tag done [] small valid short step =
      rw append-nil (Consumes-nil P on_field (f done))
  Consumes-messages on_field f tag done (a ∷ l) small (v, vs) short step =
      subst (λ m. Consumes P on_field (f done) (wire_messages tag (a ∷ l)) (f m))
        (append_assoc done (a ∷ []) l)
        (Consumes-append P on_field _ _
          (Consumes-message P on_field C (λ a'. f (append_item done a')) tag a small v
            (omega (lengths, length-sized_le P C tag a)) (step done))
          (Consumes-messages on_field f tag (done ++ (a ∷ [])) l small vs (omega lengths) step))
