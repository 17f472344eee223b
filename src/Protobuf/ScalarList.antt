-- ===== src/Protobuf/ScalarList.antt =====
-- Repeated scalars that are not packed, such as `stringVal`, in compiled.js.
use timemachine.Base.{ℕ, ◌≡◌, sym, subst, List, [], ◌∷◌, ◌++◌, All, append_assoc, append-nil}
use timemachine.Protobuf.Outcome.{Result, attempt}
use timemachine.Protobuf.Runtime.{Runtime, Scalar, Reader, IsUint32}
use timemachine.Protobuf.Writes.{Writes, Writes-nil, Writes-append, Writes-field}
use timemachine.Protobuf.Decoder.{Consumes, Consumes-nil, Consumes-append}
use timemachine.Protobuf.Message.{store, Consumes-scalar}
use timemachine.Protobuf.Repeated.{append_item}

module _ (P : Runtime) {A : Type 0} {InRange : A → Type 0}
    (S : Scalar P.Writer P.buffers A InRange) where
  -- `for (var i = 0; i < message.xs.length; ++i) writer.uint32(tag).S(message.xs[i])`
  abbrev pub put_scalars : ℕ → List A → P.Writer → P.Writer
  put_scalars tag [] w = w
  put_scalars tag (a ∷ l) w = put_scalars tag l (S.put (P.uint32.put w tag) a)

  abbrev pub wire_scalars : ℕ → List A → List ℕ
  wire_scalars tag [] = []
  wire_scalars tag (a ∷ l) = (P.uint32.wire tag ++ S.wire a) ++ wire_scalars tag l

  pub Writes-scalars :
      (tag : ℕ) (l : List A) (w : P.Writer)
      → IsUint32 tag
      → All InRange l
      → Writes P w (put_scalars tag l w) (wire_scalars tag l)
  Writes-scalars tag [] w small valid = Writes-nil P w
  Writes-scalars tag (a ∷ l) w small (v, vs) =
      Writes-append P w (S.put (P.uint32.put w tag) a) _ _ _ (Writes-field P S w tag a small v)
        (Writes-scalars tag l (S.put (P.uint32.put w tag) a) small vs)

  pub Consumes-scalars :
      {M : Type 0} (on_field : M → ℕ → Reader → Result (M × Reader)) (f : List A → M)
      → (tag : ℕ) (done l : List A) → IsUint32 tag
      → All InRange l
      → ((done : List A) (r : Reader)
          → on_field (f done) tag r ≡ store (attempt (S.read r)) (λ a. f (append_item done a)))
      → Consumes P on_field (f done) (wire_scalars tag l) (f (done ++ l))
  unfolding append_item
  Consumes-scalars on_field f tag done [] small valid step =
      subst (λ m. Consumes P on_field (f done) [] (f m)) (sym (append-nil done))
        (Consumes-nil P on_field (f done))
  Consumes-scalars on_field f tag done (a ∷ l) small (v, vs) step =
      subst (λ m. Consumes P on_field (f done) (wire_scalars tag (a ∷ l)) (f m))
        (append_assoc done (a ∷ []) l)
        (Consumes-append P on_field _ _
          (Consumes-scalar P on_field S (λ a'. f (append_item done a')) tag a small v (step done))
          (Consumes-scalars on_field f tag (done ++ (a ∷ [])) l small vs step))
