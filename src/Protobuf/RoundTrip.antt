-- ===== src/Protobuf/RoundTrip.antt =====
-- What follows for every message type from the promise of its codec: whole buffers, and the
-- length-delimited form.
use timemachine.Base.{
  ℕ, ◌≡◌, ◌≢◌, sym, ap, subst, ◌∙◌, List, [], ◌++◌, Option, none, some, length, length-append,
  append-nil, arith,
}
use timemachine.Protobuf.Outcome.{ok, stuck}
use timemachine.Protobuf.Runtime.{Runtime, IsUint32, Buffers, append_bytes}
use timemachine.Protobuf.Loop.{Ahead-ne-stuck}
use timemachine.Protobuf.Writes.{sized}
use timemachine.Protobuf.Decoder.{Source, buffer, as_reader, read_sized}
use timemachine.Protobuf.Codec.{Codec, encode_delimited_by, decode_delimited_by, read_sized-wire}

-- `writer.finish()` on a writer with nothing set aside: the bytes written.
abbrev pub finish : (P : Runtime) → P.Writer → List ℕ
finish P w = (P.buffers w).written

module _ (P : Runtime) {M : Type 0} (C : Codec P M) where
  pub encode_fresh-buffers :
      (m : M)
      → C.IsValid m
      → IsUint32 (length (C.wire m))
      → P.buffers (C.encode m none) ≡ record { written = C.wire m; saved = [] }
  encode_fresh-buffers m valid short =
      ap P.buffers (C.encode_fresh m)
      ∙ C.encode-Writes m P.create_writer valid short
      ∙ ap (λ b. append_bytes b (C.wire m)) P.create_writer-buffers

  -- A message that is encoded to a buffer of its own is decoded to the same message.
  pub decode-encode :
      (m : M)
      → C.IsValid m
      → IsUint32 (length (C.wire m))
      → C.decode (buffer (finish P (C.encode m none))) none
        ≡ ok (m, record { buf = C.wire m; pos = length (C.wire m) })
  decode-encode m valid short =
      ap (λ b. C.decode (buffer (Buffers.written b)) none) (encode_fresh-buffers m valid short)
      ∙ C.decode-buffer m valid short

  encode_delimited-buffers :
      (m : M)
      → C.IsValid m
      → IsUint32 (length (C.wire m))
      → P.buffers (encode_delimited_by P C.encode m none)
        ≡ record { written = sized P (C.wire m); saved = [] }
  unfolding encode_delimited_by
  encode_delimited-buffers m valid short =
      P.ldelim_reset (C.encode m none) (C.wire m) (encode_fresh-buffers m valid short) short

  -- So is one in the length-delimited form.
  pub decode_delimited-encode_delimited :
      (m : M)
      → C.IsValid m
      → IsUint32 (length (C.wire m))
      → let bytes = finish P (encode_delimited_by P C.encode m none) in
        decode_delimited_by P C.decode (buffer bytes)
        ≡ ok (m, record { buf = bytes; pos = length bytes })
  unfolding decode_delimited_by as_reader
  decode_delimited-encode_delimited m valid short =
      subst
        (λ bytes.
          read_sized P C.decode (P.create_reader bytes)
          ≡ ok (m, record { buf = bytes; pos = length bytes }))
        (sym (ap Buffers.written (encode_delimited-buffers m valid short)))
        (rw (P.create_reader_lem (sized P (C.wire m))) (
          read_sized-wire P C m (record { buf = sized P (C.wire m); pos = 0 }) [] valid short
            (sym (append-nil (sized P (C.wire m))))
          ∙ ap (λ (p : ℕ). ok (m, record { buf = sized P (C.wire m); pos = p })) (omega arith)))

  -- `encodeDelimited` sets nothing aside before it encodes: on a writer that holds bytes already, the
  -- length counts those bytes too and stands in front of them.
  pub encode_delimited_used :
      (m : M) (w : P.Writer) (earlier : List ℕ)
      → C.IsValid m
      → IsUint32 (length (earlier ++ C.wire m))
      → P.buffers w ≡ record { written = earlier; saved = [] }
      → finish P (encode_delimited_by P C.encode m (some w)) ≡ sized P (earlier ++ C.wire m)
  unfolding encode_delimited_by
  encode_delimited_used m w earlier valid short holds = ap Buffers.written (
      P.ldelim_reset (C.encode m (some w)) (earlier ++ C.wire m)
        (C.encode-Writes m w valid (omega (arith, length-append earlier (C.wire m)))
          ∙ ap (λ b. append_bytes b (C.wire m)) holds)
        short)

  -- On any bytes `decode` returns or throws.
  pub decode-ne-stuck : (source : Source) (n : Option ℕ) → C.decode source n ≢ stuck
  decode-ne-stuck source n = Ahead-ne-stuck (C.decode-Ahead source n)
