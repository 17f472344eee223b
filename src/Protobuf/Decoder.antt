-- ===== src/Protobuf/Decoder.antt =====
-- The frame of every `decode` and `decodeDelimited` in compiled.js around its loop, and the bytes
-- that take the loop from one message to the next.
use timemachine.Base.{
  ℕ, suc, ◌+◌, ◌-◌, ◌%◌, ◌≤◌, ◌≡◌, sym, ap, subst, ◌∙◌, List, [], ◌++◌, Option, none, some, length,
  drop, drop-append, drop-drop, length-append, append_assoc, append-nil, arith,
}
use timemachine.Protobuf.Outcome.{Result, ok, ◌>>=◌, attempt}
use timemachine.Protobuf.Runtime.{Runtime, Reader, At, advance, IsUint32, Payload}
use timemachine.Protobuf.Loop.{
  Ahead, read_fields, Fields, ended, field, Fields-read_fields, read_fields-Ahead,
  read_fields-Fields,
}

-- What `decode` is given: a Reader, or a buffer to make one of.
pub data Source : Type 0 where
  reader : Reader → Source
  buffer : List ℕ → Source

-- Past bytes that were read come those behind them.
pub At-advance :
    (r : Reader) (bytes rest : List ℕ) → At r (bytes ++ rest) → At (advance r (length bytes)) rest
At-advance r bytes rest at =
    sym (drop-drop r.pos (length bytes) r.buf)
    ∙ ap (drop (length bytes)) at
    ∙ drop-append bytes rest

pub advance-advance : (r : Reader) (n m : ℕ) → advance (advance r n) m ≡ advance r (n + m)
advance-advance r n m = ap (λ (p : ℕ). record r { pos = p }) (omega arith)

pub advance-zero : (r : Reader) → r ≡ advance r 0
advance-zero r = ap (λ (p : ℕ). record r { pos = p }) (omega arith)

-- The second reader is behind the length that is given, counted from the first, or behind all bytes.
abbrev pub IsPast : Reader → Option ℕ → Reader → Type 0
IsPast r none r' = length r.buf ≤ r'.pos
IsPast r (some n) r' = r.pos + n ≤ r'.pos

module _ (P : Runtime) where
  -- `if (!(reader instanceof $Reader)) reader = $Reader.create(reader)`
  unfoldable pub as_reader : Source → Reader
  as_reader (reader r) = r
  as_reader (buffer b) = P.create_reader b

  -- `length === undefined ? reader.len : reader.pos + length`
  abbrev pub end_of : Reader → Option ℕ → ℕ
  end_of r none = length r.buf
  end_of r (some n) = r.pos + n

  module _ {M : Type 0} (empty : M) (on_field : M → ℕ → Reader → Result (M × Reader)) where
    unfoldable pub decode_message : Source → Option ℕ → Result (M × Reader)
    decode_message source n =
        let r = as_reader source in
        read_fields P on_field (suc (length r.buf - r.pos)) (end_of r n) empty r

  -- `this.decode(reader, reader.uint32())`: the reader has passed the length when `decode` reads
  -- its position.
  unfoldable pub read_sized :
      {M : Type 0} (decode : Source → Option ℕ → Result (M × Reader)) → Reader → Result (M × Reader)
  read_sized decode r = do (n, r₁) ← attempt (P.uint32.read r); decode (reader r₁) (some n)

  module _ {M : Type 0} (on_field : M → ℕ → Reader → Result (M × Reader)) where
    -- Where `bytes` come next and end before `end`, the loop goes from `m` past them to `m'`.
    abbrev pub Consumes : M → List ℕ → M → Type 0
    Consumes m bytes m' =
        (r : Reader) (rest : List ℕ) (end : ℕ) (m'' : M) (r'' : Reader)
        → At r (bytes ++ rest)
        → r.pos + length bytes ≤ end
        → Fields P on_field end m' (advance r (length bytes)) m'' r''
        → Fields P on_field end m r m'' r''

    pub Consumes-nil : (m : M) → Consumes m [] m
    Consumes-nil m r rest end m'' r'' at le more =
        subst (λ r₀. Fields P on_field end m r₀ m'' r'')
          (ap (λ (p : ℕ). record r { pos = p }) (omega arith)) more

    pub Consumes-append :
        {m m₁ m₂ : M} (xs ys : List ℕ)
        → Consumes m xs m₁
        → Consumes m₁ ys m₂
        → Consumes m (xs ++ ys) m₂
    Consumes-append {m₂ = m₂} xs ys h k r rest end m'' r'' at le more =
        h r (ys ++ rest) end m'' r'' at' (omega (arith, length-append xs ys)) (
          k (advance r (length xs)) rest end m'' r'' (At-advance r xs (ys ++ rest) at')
            (omega (arith, length-append xs ys))
            (subst (λ r₀. Fields P on_field end m₂ r₀ m'' r'') moved more))
      where
        at' : At r (xs ++ (ys ++ rest))
        at' = at ∙ append_assoc xs ys rest

        moved : advance r (length (xs ++ ys)) ≡ advance (advance r (length xs)) (length ys)
        moved =
            ap (advance r) (length-append xs ys) ∙ sym (advance-advance r (length xs) (length ys))

    -- One round: the tag, and what the switch does with the bytes behind it.
    pub Consumes-field :
        {m m' : M} (tag : ℕ) (bytes : List ℕ)
        → IsUint32 tag
        → ((r : Reader) (rest : List ℕ)
            → At r (bytes ++ rest)
            → on_field m tag r ≡ ok (m', advance r (length bytes)))
        → Consumes m (P.uint32.wire tag ++ bytes) m'
    Consumes-field {m} {m'} tag bytes small handled r rest end m'' r'' at le more =
        field tag (advance r (length (P.uint32.wire tag)))
          (omega (
            arith,
            length-append (P.uint32.wire tag) bytes,
            (P.uint32.read-forward r _ tag read).1,
          ))
          read (handled (advance r (length (P.uint32.wire tag))) rest (At-advance r _ _ at'))
          (subst (λ r₀. Fields P on_field end m' r₀ m'' r'') moved more)
      where
        at' : At r (P.uint32.wire tag ++ (bytes ++ rest))
        at' = at ∙ append_assoc (P.uint32.wire tag) bytes rest

        read : P.uint32.read r ≡ some (tag, advance r (length (P.uint32.wire tag)))
        read = P.uint32.read-wire r tag (bytes ++ rest) small at'

        moved :
            advance r (length (P.uint32.wire tag ++ bytes))
            ≡ advance (advance r (length (P.uint32.wire tag))) (length bytes)
        moved =
            ap (advance r) (length-append (P.uint32.wire tag) bytes)
            ∙ sym (advance-advance r (length (P.uint32.wire tag)) (length bytes))

    -- A field that the switch skips by its wire type, as its `default` does.
    pub Consumes-skipped :
        {m : M} (tag : ℕ) (payload : List ℕ)
        → IsUint32 tag
        → Payload P.uint32.wire (tag % 8) payload
        → ((r : Reader)
            → on_field m tag r ≡ (attempt (P.skip_type (tag % 8) r) >>= λ r'. ok (m, r')))
        → Consumes m (P.uint32.wire tag ++ payload) m
    Consumes-skipped tag payload small shape skips =
        Consumes-field tag payload small
          λ r rest at. skips r ∙ rw (P.skip_type-Payload (tag % 8) payload r rest shape at)

  module _ {M : Type 0} (empty : M) (on_field : M → ℕ → Reader → Result (M × Reader))
      (ahead : (m : M) (tag : ℕ) (r : Reader) → Ahead r (on_field m tag r)) where
    -- Bytes that lead from the empty message to `m` are decoded to `m`, whatever follows them.
    pub decode_message-sized :
        (m : M) (bytes : List ℕ) (r : Reader) (rest : List ℕ)
        → Consumes on_field empty bytes m
        → At r (bytes ++ rest)
        → decode_message empty on_field (reader r) (some (length bytes))
          ≡ ok (m, advance r (length bytes))
    unfolding decode_message as_reader
    decode_message-sized m bytes r rest consumes at =
        Fields-read_fields P on_field ahead
          (consumes r rest (r.pos + length bytes) m _ at (omega arith) (ended (omega arith))) _
          (omega arith)

    pub decode_message-buffer :
        (m : M) (bytes : List ℕ)
        → Consumes on_field empty bytes m
        → decode_message empty on_field (buffer bytes) none
          ≡ ok (m, record { buf = bytes; pos = length bytes })
    unfolding decode_message as_reader
    decode_message-buffer m bytes consumes = rw (P.create_reader_lem bytes) (
        Fields-read_fields P on_field ahead
          (consumes (record { buf = bytes; pos = 0 }) [] (length bytes) m _ (sym (append-nil bytes))
            (omega arith)
            (subst
              (λ r₀.
                Fields P on_field (length bytes) m r₀ m
                  (record { buf = bytes; pos = length bytes }))
              (ap (λ (p : ℕ). record { buf = bytes; pos = p }) (omega arith))
              (ended (omega arith))))
          _ (omega arith))

    -- `decode` returns or throws, and never moves the reader back.
    pub decode_message-Ahead :
        (source : Source) (n : Option ℕ)
        → Ahead (as_reader source) (decode_message empty on_field source n)
    unfolding decode_message
    decode_message-Ahead source n =
        read_fields-Ahead P on_field ahead _ _ empty (as_reader source) (omega arith)

  module _ {M : Type 0} (on_field : M → ℕ → Reader → Result (M × Reader)) where
    Fields-past :
        {end : ℕ} {m m' : M} {r r' : Reader} → Fields P on_field end m r m' r' → end ≤ r'.pos
    Fields-past (ended past) = past
    Fields-past (field tag r₁ left read handled more) = Fields-past more

    -- `decode` of a reader returns no message before its bytes are read.
    pub decode_message-IsPast :
        (empty : M) (r : Reader) (n : Option ℕ) (m : M) (r' : Reader)
        → decode_message empty on_field (reader r) n ≡ ok (m, r')
        → IsPast r n r'
    unfolding decode_message as_reader
    decode_message-IsPast empty r none m r' h =
        Fields-past (read_fields-Fields P on_field _ _ empty r h)
    decode_message-IsPast empty r (some n) m r' h =
        Fields-past (read_fields-Fields P on_field _ _ empty r h)
