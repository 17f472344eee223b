-- ===== src/Protobuf/Codec.antt =====
-- What one message type promises to those that hold it in a field: its bytes, and that `encode`
-- writes them and `decode` reads them back. A message's own theorems fill this record.
use timemachine.Base.{
  ℕ, ◌≡◌, sym, ap, ◌∙◌, List, ◌++◌, Option, none, some, length, length-append, append_assoc,
}
use timemachine.Protobuf.Outcome.{Result, ok}
use timemachine.Protobuf.Runtime.{Runtime, Reader, At, advance, IsUint32}
use timemachine.Protobuf.Loop.{Ahead, Ahead-bind, Ahead-read}
use timemachine.Protobuf.Writes.{Writes, sized, Writes-append, Writes-fork}
use timemachine.Protobuf.Decoder.{
  Source, reader, buffer, read_sized, as_reader, At-advance, advance-advance,
}

pub record Codec (P : Runtime) (M : Type 0) : Type 1 where
  pub IsValid : M → Type 0
  pub wire : M → List ℕ
  pub encode : M → Option P.Writer → P.Writer
  pub decode : Source → Option ℕ → Result (M × Reader)
  pub encode-Writes :
      (m : M) (w : P.Writer)
      → IsValid m
      → IsUint32 (length (wire m))
      → Writes P w (encode m (some w)) (wire m)
  pub decode-wire :
      (m : M) (r : Reader) (rest : List ℕ)
      → IsValid m
      → IsUint32 (length (wire m))
      → At r (wire m ++ rest)
      → decode (reader r) (some (length (wire m))) ≡ ok (m, advance r (length (wire m)))
  pub decode-buffer :
      (m : M)
      → IsValid m
      → IsUint32 (length (wire m))
      → decode (buffer (wire m)) none ≡ ok (m, record { buf = wire m; pos = length (wire m) })
  pub decode-Ahead : (source : Source) (n : Option ℕ) → Ahead (as_reader P source) (decode source n)
  -- Without a writer `encode` makes one.
  pub encode_fresh : (m : M) → encode m none ≡ encode m (some P.create_writer)

module _ (P : Runtime) where
  -- `if (!writer) writer = $Writer.create()`
  abbrev pub or_create : Option P.Writer → P.Writer
  or_create none = P.create_writer
  or_create (some w) = w

  -- `this.encode(message, writer).ldelim()`
  unfoldable pub encode_delimited_by :
      {M : Type 0} → (M → Option P.Writer → P.Writer) → M → Option P.Writer → P.Writer
  encode_delimited_by encode message writer = P.ldelim (encode message writer)

  -- `if (!(reader instanceof $Reader)) reader = new $Reader(reader);`
  -- `return this.decode(reader, reader.uint32())`
  unfoldable pub decode_delimited_by :
      {M : Type 0} → (Source → Option ℕ → Result (M × Reader)) → Source → Result (M × Reader)
  decode_delimited_by decode source = read_sized P decode (as_reader P source)

  module _ {M : Type 0} (C : Codec P M) where
    -- A sub-message in the writer: `C.encode(m, writer.uint32(tag).fork()).ldelim()`.
    pub Writes-message :
        (w : P.Writer) (tag : ℕ) (m : M)
        → IsUint32 tag
        → C.IsValid m
        → IsUint32 (length (C.wire m))
        → Writes P w
            (P.ldelim (C.encode m (some (P.fork (P.uint32.put w tag)))))
            (P.uint32.wire tag ++ sized P (C.wire m))
    Writes-message w tag m small valid short =
        Writes-append P w (P.uint32.put w tag) _ (P.uint32.wire tag) (sized P (C.wire m))
          (P.uint32.put-buffers w tag small)
          (Writes-fork P (P.uint32.put w tag) _ (C.wire m) short
            (C.encode-Writes m (P.fork (P.uint32.put w tag)) valid short))

    -- A sub-message in the reader: `C.decode(reader, reader.uint32())`.
    pub read_sized-wire :
        (m : M) (r : Reader) (rest : List ℕ)
        → C.IsValid m
        → IsUint32 (length (C.wire m))
        → At r (sized P (C.wire m) ++ rest)
        → read_sized P C.decode r ≡ ok (m, advance r (length (sized P (C.wire m))))
    unfolding read_sized
    read_sized-wire m r rest valid short at =
        let prefix : List ℕ = P.uint32.wire (length (C.wire m)) in
        let at' : At r (prefix ++ (C.wire m ++ rest)) = at ∙ append_assoc prefix (C.wire m) rest in
        rw (P.uint32.read-wire r (length (C.wire m)) (C.wire m ++ rest) short at') (
          C.decode-wire m (advance r (length prefix)) rest valid short
            (At-advance r prefix (C.wire m ++ rest) at')
          ∙ ap (λ r'. ok (m, r'))
              (advance-advance r (length prefix) (length (C.wire m))
                ∙ ap (advance r) (sym (length-append prefix (C.wire m)))))

    pub read_sized-Ahead : (r : Reader) → Ahead r (read_sized P C.decode r)
    unfolding read_sized as_reader
    read_sized-Ahead r =
        Ahead-bind _ _ (Ahead-read P P.uint32 r) λ n r₁. C.decode-Ahead (reader r₁) (some n)
