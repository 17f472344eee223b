-- ===== src/Protobuf/MapField.antt =====
-- Map fields, from strings to sub-messages, in the `encode` and `decode` functions of compiled.js.
use timemachine.Base.{
  ℕ, ◌<◌, ◌≡◌, refl, sym, ap, subst, ◌∙◌, List, [], ◌∷◌, ◌++◌, some, length, All, lengths,
  append_assoc, append-nil, arith,
}
use timemachine.JsObject.{set_key, set_key_new, DistinctFrom, IsPlainKey}
use timemachine.Protobuf.Outcome.{Text, Result, ok, ◌>>=◌, attempt, >>=-step}
use timemachine.Protobuf.Runtime.{Runtime, Reader, At, advance, IsUint32, IsText}
use timemachine.Protobuf.Loop.{
  Ahead, Ahead-bind, Ahead-read, Ahead-done, Ahead-attempt_reader, Ahead-weaken,
}
use timemachine.Protobuf.Writes.{
  Writes, sized, Writes-nil, Writes-append, Writes-fork, Writes-field,
}
use timemachine.Protobuf.Decoder.{
  Consumes, Consumes-nil, Consumes-append, Consumes-field, read_sized, At-advance,
}
use timemachine.Protobuf.Codec.{Codec, Writes-message, read_sized-wire, read_sized-Ahead}
use timemachine.Protobuf.Message.{store}

regroup :
    (a b c d e f : List ℕ) → (a ++ ((b ++ c) ++ (d ++ e))) ++ f ≡ a ++ (b ++ (c ++ (d ++ (e ++ f))))
regroup a b c d e f = simp append_assoc

module _ (P : Runtime) {A : Type 0} (C : Codec P A) where
  -- What an entry may hold.
  abbrev pub IsEntry : Text × A → Type 0
  IsEntry (k, a) = IsText k × IsPlainKey k × C.IsValid a

  -- The key and the value of an entry, behind their tags.
  abbrev pub wire_entry : Text × A → List ℕ
  wire_entry (k, a) =
      (P.uint32.wire 10 ++ P.string.wire k) ++ (P.uint32.wire 18 ++ sized P (C.wire a))

  -- `writer.uint32(tag).fork().uint32(10).string(key);`
  -- `C.encode(value, writer.uint32(18).fork()).ldelim().ldelim();`
  abbrev put_entry : ℕ → Text × A → P.Writer → P.Writer
  put_entry tag (k, a) w =
      let w₁ = P.fork (P.uint32.put w tag) in
      let w₂ = P.string.put (P.uint32.put w₁ 10) k in
      P.ldelim (P.ldelim (C.encode a (some (P.fork (P.uint32.put w₂ 18)))))

  -- `for (var keys = Object.keys(message.xs), i = 0; i < keys.length; ++i)`
  abbrev pub put_entries : ℕ → List (Text × A) → P.Writer → P.Writer
  put_entries tag [] w = w
  put_entries tag (e ∷ object) w = put_entries tag object (put_entry tag e w)

  abbrev pub wire_entries : ℕ → List (Text × A) → List ℕ
  wire_entries tag [] = []
  wire_entries tag (e ∷ object) =
      (P.uint32.wire tag ++ sized P (wire_entry e)) ++ wire_entries tag object

  -- `reader.skip().pos++; key = reader.string(); reader.pos++;`
  -- `C.decode(reader, reader.uint32())`: neither the length of the entry nor its tags are looked at.
  unfoldable pub read_entry : Reader → Result ((Text × A) × Reader)
  read_entry r = do
    r₁ ← attempt (P.skip r)
    (key, r₂) ← attempt (P.string.read (advance r₁ 1))
    (a, r₃) ← read_sized P C.decode (advance r₂ 1)
    ok ((key, a), r₃)

  -- `message.xs[key] = value`
  unfoldable pub set_entry : List (Text × A) → Text × A → List (Text × A)
  set_entry object (k, a) = set_key k a object

  pub read_entry-Ahead : (r : Reader) → Ahead r (read_entry r)
  unfolding read_entry
  read_entry-Ahead r = Ahead-attempt_reader _ _ (P.skip-forward r) λ r₁.
      Ahead-weaken refl (omega arith) (
        Ahead-bind _ _ (Ahead-read P P.string (advance r₁ 1)) λ key r₂.
          Ahead-weaken refl (omega arith)
            (Ahead-bind _ _ (read_sized-Ahead P C (advance r₂ 1)) λ a r₃. Ahead-done r₃ (key, a)))

  -- The tag of the key and the tag of the value take one byte each.
  small_tag : (tag : ℕ) → tag < 128 → 1 ≡ length (P.uint32.wire tag)
  small_tag tag small = sym (ap length (P.wire_small tag small))

  -- The bytes of an entry are read back.
  read_entry-wire :
      (k : Text) (a : A) (r : Reader) (rest : List ℕ)
      → IsEntry (k, a)
      → IsUint32 (length (wire_entry (k, a)))
      → At r (sized P (wire_entry (k, a)) ++ rest)
      → read_entry r ≡ ok ((k, a), advance r (length (sized P (wire_entry (k, a)))))
  unfolding read_entry
  read_entry-wire k a r rest (text, plain, valid) short at =
      >>=-step _ r₁ (ap attempt (P.skip-varint r _ _ short at₀)) (
        >>=-step _ (k, r₃) (ap attempt key_read)
          (>>=-step _ (a, r₅) value_read
            (ap (λ (p : ℕ). ok ((k, a), record r { pos = p })) (omega lengths))))
    where
      size : List ℕ
      size = P.uint32.wire (length (wire_entry (k, a)))

      value : List ℕ
      value = sized P (C.wire a)

      r₁ : Reader
      r₁ = advance r (length size)

      r₂ : Reader
      r₂ = advance r₁ (length (P.uint32.wire 10))

      r₃ : Reader
      r₃ = advance r₂ (length (P.string.wire k))

      r₄ : Reader
      r₄ = advance r₃ (length (P.uint32.wire 18))

      r₅ : Reader
      r₅ = advance r₄ (length value)

      at₀ :
          At r (
            size
            ++ (P.uint32.wire 10 ++ (P.string.wire k ++ (P.uint32.wire 18 ++ (value ++ rest)))))
      at₀ = at ∙ regroup size (P.uint32.wire 10) (P.string.wire k) (P.uint32.wire 18) value rest

      at₂ : At r₂ (P.string.wire k ++ (P.uint32.wire 18 ++ (value ++ rest)))
      at₂ = At-advance r₁ (P.uint32.wire 10) _ (At-advance r size _ at₀)

      at₄ : At r₄ (value ++ rest)
      at₄ = At-advance r₃ (P.uint32.wire 18) _ (At-advance r₂ (P.string.wire k) _ at₂)

      key_read : P.string.read (advance r₁ 1) ≡ some (k, r₃)
      key_read =
          ap (λ (n : ℕ). P.string.read (advance r₁ n)) (small_tag 10 (omega arith))
          ∙ P.string.read-wire r₂ k _ text at₂

      value_read : read_sized P C.decode (advance r₃ 1) ≡ ok (a, r₅)
      value_read =
          ap (λ (n : ℕ). read_sized P C.decode (advance r₃ n)) (small_tag 18 (omega arith))
          ∙ read_sized-wire P C a r₄ rest valid (omega lengths) at₄

  Writes-entry :
      (tag : ℕ) (k : Text) (a : A) (w : P.Writer)
      → IsUint32 tag
      → IsEntry (k, a)
      → IsUint32 (length (wire_entry (k, a)))
      → Writes P w (put_entry tag (k, a) w) (P.uint32.wire tag ++ sized P (wire_entry (k, a)))
  Writes-entry tag k a w small (text, plain, valid) short =
      Writes-append P w (P.uint32.put w tag) _ (P.uint32.wire tag) (sized P (wire_entry (k, a)))
        (P.uint32.put-buffers w tag small)
        (Writes-fork P (P.uint32.put w tag) _ (wire_entry (k, a)) short (
          Writes-append P _ _ _ (P.uint32.wire 10 ++ P.string.wire k)
            (P.uint32.wire 18 ++ sized P (C.wire a))
            (Writes-field P P.string _ 10 k (omega arith) text)
            (Writes-message P C _ 18 a (omega arith) valid (omega lengths))))

  pub Writes-entries :
      (tag : ℕ) (object : List (Text × A)) (w : P.Writer)
      → IsUint32 tag
      → All IsEntry object
      → IsUint32 (length (wire_entries tag object))
      → Writes P w (put_entries tag object w) (wire_entries tag object)
  Writes-entries tag [] w small valid short = Writes-nil P w
  Writes-entries tag ((k, a) ∷ object) w small (v, vs) short =
      Writes-append P w (put_entry tag (k, a) w) _ _ _
        (Writes-entry tag k a w small v (omega lengths))
        (Writes-entries tag object (put_entry tag (k, a) w) small vs (omega lengths))

  -- `f` is the message as a function of the map, which takes each new key at its end.
  pub Consumes-entries :
      {M : Type 0} (on_field : M → ℕ → Reader → Result (M × Reader)) (f : List (Text × A) → M)
      → (tag : ℕ) (done object : List (Text × A)) → IsUint32 tag
      → All IsEntry object
      → DistinctFrom done object
      → IsUint32 (length (wire_entries tag object))
      → ((done : List (Text × A)) (r : Reader)
          → on_field (f done) tag r ≡ store (read_entry r) (λ e. f (set_entry done e)))
      → Consumes P on_field (f done) (wire_entries tag object) (f (done ++ object))
  unfolding store set_entry
  Consumes-entries on_field f tag done [] small valid distinct short step =
      subst (λ m. Consumes P on_field (f done) [] (f m)) (sym (append-nil done))
        (Consumes-nil P on_field (f done))
  Consumes-entries on_field f tag done ((k, a) ∷ object) small (v, vs) (new, distinct) short step =
      let object' : List (Text × A) = (k, a) ∷ object in
      subst (λ m. Consumes P on_field (f done) (wire_entries tag object') (f m))
        (append_assoc done ((k, a) ∷ []) object)
        (Consumes-append P on_field _ _
          (Consumes-field P on_field tag (sized P (wire_entry (k, a))) small λ r rest at.
            step done r
            ∙ rw (read_entry-wire k a r rest v (omega lengths) at) (
                ap (λ m. ok (f m, advance r (length (sized P (wire_entry (k, a))))))
                  (set_key_new k a done new)))
          (Consumes-entries on_field f tag (done ++ ((k, a) ∷ [])) object small vs distinct
            (omega lengths) step))
