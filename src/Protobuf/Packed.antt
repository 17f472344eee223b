-- ===== src/Protobuf/Packed.antt =====
-- Packed repeated scalars in the `encode` and `decode` functions of compiled.js.
use timemachine.Base.{
  ℕ, zero, suc, ◌+◌, ◌-◌, ◌%◌, ◌<◌, ◌≤◌, ◌≡◌, sym, ap, ◌∙◌, List, [], ◌∷◌, ◌++◌, true, false, some,
  length, All, lengths, length-append, append_assoc, append-nil, arith, ltb, ltb→lt, ltb→le, lt→ltb,
  le→ltb, Bool-cases, inl, inr, ◌==◌, if◌then◌else◌,
}
use timemachine.Protobuf.Outcome.{Result, ok, stuck, ◌>>=◌, attempt, attempt-eq-ok}
use timemachine.Protobuf.Runtime.{Runtime, Scalar, Reader, At, advance, IsUint32}
use timemachine.Protobuf.Loop.{Ahead, Ahead-bind, Ahead-bind_eq, Ahead-read, Ahead-done, Ahead-if}
use timemachine.Protobuf.Writes.{Writes, sized, Writes-nil, Writes-append, Writes-fork}
use timemachine.Protobuf.Decoder.{
  Consumes, Consumes-nil, Consumes-field, At-advance, advance-advance, advance-zero,
}
use timemachine.Protobuf.Message.{store}
use timemachine.Protobuf.Repeated.{append_item}

module _ (P : Runtime) {A : Type 0} {InRange : A → Type 0}
    (S : Scalar P.Writer P.buffers A InRange) where
  -- `for (var i = 0; i < message.xs.length; ++i) writer.S(message.xs[i])`
  abbrev pub put_each : List A → P.Writer → P.Writer
  put_each [] w = w
  put_each (a ∷ l) w = put_each l (S.put w a)

  abbrev pub wire_each : List A → List ℕ
  wire_each [] = []
  wire_each (a ∷ l) = S.wire a ++ wire_each l

  -- `if (message.xs != null && message.xs.length) {`
  -- `  writer.uint32(tag).fork(); <each>; writer.ldelim(); }`
  abbrev pub put_packed : ℕ → List A → P.Writer → P.Writer
  put_packed tag [] w = w
  put_packed tag (a ∷ l) w = P.ldelim (put_each (a ∷ l) (P.fork (P.uint32.put w tag)))

  abbrev pub wire_packed : ℕ → List A → List ℕ
  wire_packed tag [] = []
  wire_packed tag (a ∷ l) = P.uint32.wire tag ++ sized P (wire_each (a ∷ l))

  -- `while (reader.pos < end2) message.xs.push(reader.S())`
  unfoldable pub read_until : ℕ → ℕ → List A → Reader → Result (List A × Reader)
  unfolding append_item
  read_until zero end2 xs r = stuck
  read_until (suc fuel) end2 xs r = elim (ltb r.pos end2) [
    | true ↦ do (a, r₁) ← attempt (S.read r); read_until fuel end2 (append_item xs a) r₁
    | false ↦ ok (xs, r)
  ]

  -- The case of a packed field: by the wire type a run of values behind its length, or one value.
  unfoldable pub read_packed : ℕ → List A → Reader → Result (List A × Reader)
  read_packed tag xs r =
      if tag % 8 == 2
      then (do
        (n, r₁) ← attempt (P.uint32.read r)
        read_until (suc (length r₁.buf - r₁.pos)) (n + r₁.pos) xs r₁)
      else attempt (S.read r) >>= λ (a, r₁). ok (append_item xs a, r₁)

  read_until-more :
      (fuel end2 : ℕ) (xs : List A) (r : Reader)
      → r.pos < end2
      → read_until (suc fuel) end2 xs r
        ≡ (attempt (S.read r) >>= λ (a, r₁). read_until fuel end2 (xs ++ (a ∷ [])) r₁)
  unfolding read_until
  read_until-more fuel end2 xs r h = rw (lt→ltb r.pos end2 h, read_until)

  read_until-end :
      (fuel end2 : ℕ) (xs : List A) (r : Reader)
      → end2 ≤ r.pos
      → read_until (suc fuel) end2 xs r ≡ ok (xs, r)
  unfolding read_until
  read_until-end fuel end2 xs r h = rw (le→ltb r.pos end2 h, read_until)

  read_until-Ahead :
      (fuel end2 : ℕ) (xs : List A) (r : Reader)
      → length r.buf - r.pos < fuel
      → Ahead r (read_until fuel end2 xs r)
  read_until-Ahead zero end2 xs r h = absurd (omega arith)
  read_until-Ahead (suc fuel) end2 xs r h = elim (Bool-cases (ltb r.pos end2)) [
    | inl more ↦ rw (read_until-more fuel end2 xs r (ltb→lt _ _ more)) (
        Ahead-bind_eq _ _ (Ahead-read P S r) λ a r₁ e.
          let (b, p, q) = S.read-forward r r₁ a (attempt-eq-ok (S.read r) e) in
          let same : length r₁.buf ≡ length r.buf = ap length b in
          read_until-Ahead fuel end2 (xs ++ (a ∷ [])) r₁ (omega arith))
    | inr done ↦ rw (read_until-end fuel end2 xs r (ltb→le _ _ done)) (Ahead-done r xs)
  ]

  pub read_packed-Ahead : (tag : ℕ) (xs : List A) (r : Reader) → Ahead r (read_packed tag xs r)
  unfolding read_packed
  read_packed-Ahead tag xs r =
      Ahead-if (tag % 8 == 2)
        (Ahead-bind _ _ (Ahead-read P P.uint32 r) λ n r₁. read_until-Ahead _ _ xs r₁ (omega arith))
        (Ahead-bind _ _ (Ahead-read P S r) λ a r₁. Ahead-done r₁ (append_item xs a))

  -- The loop reads back a run of values, and stops where it ends.
  read_until-wire :
      (l xs : List A) (fuel : ℕ) (r : Reader) (rest : List ℕ)
      → All InRange l
      → length r.buf - r.pos < fuel
      → At r (wire_each l ++ rest)
      → read_until fuel (r.pos + length (wire_each l)) xs r
        ≡ ok (xs ++ l, advance r (length (wire_each l)))
  read_until-wire l xs zero r rest valid h at = absurd (omega arith)
  read_until-wire [] xs (suc fuel) r rest valid h at =
      read_until-end fuel (r.pos + 0) xs r (omega arith)
      ∙ ap (λ ys. ok (ys, r)) (sym (append-nil xs))
      ∙ ap (λ r'. ok (xs ++ [], r')) (advance-zero r)
  read_until-wire (a ∷ l) xs (suc fuel) r rest (v, vs) h at =
      let n : ℕ = length (S.wire a) in
      let at' : At r (S.wire a ++ (wire_each l ++ rest)) =
        at ∙ append_assoc (S.wire a) (wire_each l) rest in
      let read : S.read r ≡ some (a, advance r n) = S.read-wire r a (wire_each l ++ rest) v at' in
      let taken = S.read-forward r (advance r n) a read in
      read_until-more fuel _ xs r (omega (lengths, taken.1))
      ∙ rw read (
          ap (λ (e : ℕ). read_until fuel e (xs ++ (a ∷ [])) (advance r n)) (omega lengths)
          ∙ read_until-wire l (xs ++ (a ∷ [])) fuel (advance r n) rest vs
              (omega (arith, taken.1, taken.2)) (At-advance r (S.wire a) (wire_each l ++ rest) at')
          ∙ ap (λ ys. ok (ys, advance (advance r n) (length (wire_each l))))
              (append_assoc xs (a ∷ []) l)
          ∙ ap (λ r'. ok (xs ++ (a ∷ l), r'))
              (advance-advance r n (length (wire_each l))
                ∙ ap (advance r) (sym (length-append (S.wire a) (wire_each l)))))

  -- The packed form of `l`, after its tag, adds `l` to the field.
  read_packed-wire :
      (tag : ℕ) (l xs : List A) (r : Reader) (rest : List ℕ)
      → tag % 8 ≡ 2
      → All InRange l
      → IsUint32 (length (wire_each l))
      → At r (sized P (wire_each l) ++ rest)
      → read_packed tag xs r ≡ ok (xs ++ l, advance r (length (sized P (wire_each l))))
  unfolding read_packed
  read_packed-wire tag l xs r rest packed valid short at =
      let prefix : List ℕ = P.uint32.wire (length (wire_each l)) in
      let fuel : ℕ = suc (length r.buf - (r.pos + length prefix)) in
      let at' : At r (prefix ++ (wire_each l ++ rest)) =
        at ∙ append_assoc prefix (wire_each l) rest in
      rw packed (
        rw (P.uint32.read-wire r (length (wire_each l)) (wire_each l ++ rest) short at') (
          ap (λ (e : ℕ). read_until fuel e xs (advance r (length prefix))) (omega arith)
          ∙ read_until-wire l xs fuel (advance r (length prefix)) rest valid (omega arith)
              (At-advance r prefix (wire_each l ++ rest) at')
          ∙ ap (λ r'. ok (xs ++ l, r'))
              (advance-advance r (length prefix) (length (wire_each l))
                ∙ ap (advance r) (sym (length-append prefix (wire_each l))))))

  Writes-each :
      (l : List A) (w : P.Writer) → All InRange l → Writes P w (put_each l w) (wire_each l)
  Writes-each [] w valid = Writes-nil P w
  Writes-each (a ∷ l) w (v, vs) =
      Writes-append P w (S.put w a) (put_each l (S.put w a)) (S.wire a) (wire_each l)
        (S.put-buffers w a v) (Writes-each l (S.put w a) vs)

  pub Writes-packed :
      (tag : ℕ) (l : List A) (w : P.Writer)
      → IsUint32 tag
      → All InRange l
      → IsUint32 (length (wire_packed tag l))
      → Writes P w (put_packed tag l w) (wire_packed tag l)
  Writes-packed tag [] w small valid short = Writes-nil P w
  Writes-packed tag (a ∷ l) w small valid short =
      Writes-append P w (P.uint32.put w tag) _ (P.uint32.wire tag) (sized P (wire_each (a ∷ l)))
        (P.uint32.put-buffers w tag small)
        (Writes-fork P (P.uint32.put w tag) _ (wire_each (a ∷ l)) (omega lengths)
          (Writes-each (a ∷ l) (P.fork (P.uint32.put w tag)) valid))

  -- `f` is the message as a function of the list.
  pub Consumes-packed :
      {M : Type 0} (on_field : M → ℕ → Reader → Result (M × Reader)) (f : List A → M)
      → (tag : ℕ) (l : List A) → IsUint32 tag
      → tag % 8 ≡ 2
      → All InRange l
      → IsUint32 (length (wire_packed tag l))
      → ((r : Reader) → on_field (f []) tag r ≡ store (read_packed tag [] r) f)
      → Consumes P on_field (f []) (wire_packed tag l) (f l)
  unfolding store
  Consumes-packed on_field f tag [] small packed valid short step = Consumes-nil P on_field (f [])
  Consumes-packed on_field f tag (a ∷ l) small packed valid short step =
      Consumes-field P on_field tag (sized P (wire_each (a ∷ l))) small λ r rest at.
        step r ∙ rw (read_packed-wire tag (a ∷ l) [] r rest packed valid (omega lengths) at)
