-- ===== src/Index/TsRecords/Laws.antt =====
-- What `decodeTsRecord` of index.ts returns on the bytes of rows, and on all other bytes.
use timemachine.Base.{
  ℕ, zero, suc, ◌-◌, ◌<◌, ◌≤◌, ◌≡◌, sym, ap, ap₂, ◌∙◌, List, [], ◌∷◌, ◌++◌, map, ℤ, length, All,
  length-append, length-drop, append_assoc, append-nil, arith, lt→ltb, le→ltb,
}
use timemachine.Protobuf.Outcome.{ok, attempt, ◌>>=◌, >>=-step}
use timemachine.Protobuf.Runtime.{Reader, At, advance}
use timemachine.Protobuf.Decoder.{At-advance, advance-advance, advance-zero}
use timemachine.Index.Bytes.Laws.{be32}
use timemachine.Index.TsRecords.{ByteBuffers, TsRecord, be64, read_record, read_records}
use timemachine.Server.GetRange.{Row, IsRow}

-- The bytes of a row: two numbers of eight bytes, the size in four, the body.
abbrev pub row_bytes : Row → List ℕ
row_bytes row = be64 row.timestamp ++ (be64 row.unique ++ (be32 (length row.body) ++ row.body))

abbrev pub rows_bytes : List Row → List ℕ
rows_bytes [] = []
rows_bytes (row ∷ rows) = row_bytes row ++ rows_bytes rows

regroup : (a b c d e : List ℕ) → (a ++ (b ++ (c ++ d))) ++ e ≡ a ++ (b ++ (c ++ (d ++ e)))
regroup a b c d e = simp append_assoc

-- The buffer of `decodeTsRecord` at its start.
abbrev pub start : List ℕ → Reader
start bytes = record { buf = bytes; pos = 0 }

module _ (B : ByteBuffers) where
  -- A row as a record of its own, with one entry.
  abbrev pub record_of : Row → TsRecord B
  record_of row = record {
    ts = B.to_number row.timestamp;
    entries = record { uid = B.to_number row.unique; bytes = row.body } ∷ [];
  }

  read_record-row :
      (bb : Reader) (row : Row) (rest : List ℕ)
      → IsRow row
      → At bb (row_bytes row ++ rest)
      → read_record B bb ≡ ok (record_of row, advance bb (length (row_bytes row)))
  unfolding read_record
  read_record-row bb row rest (t, u, size) at =
      >>=-step _ (row.timestamp, bb₁) (ap attempt (B.read_long-be64 bb _ _ t at₀))
        (>>=-step _ (row.unique, bb₂) (ap attempt (B.read_long-be64 bb₁ _ _ u at₁))
          (>>=-step _ (ℤ.pos (length row.body), bb₃) (ap attempt (B.read_int-be32 bb₂ _ _ size at₂))
            (>>=-step _ (row.body, bb₄) (ap attempt (B.read_bytes-append bb₃ _ rest at₃))
              (ap (λ (p : ℕ). ok (record_of row, record bb { pos = p })) (omega arith)))))
    where
      bb₁ : Reader
      bb₁ = advance bb 8

      bb₂ : Reader
      bb₂ = advance bb₁ 8

      bb₃ : Reader
      bb₃ = advance bb₂ 4

      bb₄ : Reader
      bb₄ = advance bb₃ (length row.body)

      at₀ : At bb (
          be64 row.timestamp ++ (be64 row.unique ++ (be32 (length row.body) ++ (row.body ++ rest))))
      at₀ = at

      at₁ : At bb₁ (be64 row.unique ++ (be32 (length row.body) ++ (row.body ++ rest)))
      at₁ = At-advance bb (be64 row.timestamp) _ at₀

      at₂ : At bb₂ (be32 (length row.body) ++ (row.body ++ rest))
      at₂ = At-advance bb₁ (be64 row.unique) _ at₁

      at₃ : At bb₃ (row.body ++ rest)
      at₃ = At-advance bb₂ (be32 (length row.body)) _ at₂

  pub read_records-more :
      (fuel : ℕ) (records : List (TsRecord B)) (bb : Reader)
      → bb.pos < length bb.buf
      → read_records B (suc fuel) records bb
        ≡ (read_record B bb >>= λ (entry, bb'). read_records B fuel (records ++ (entry ∷ [])) bb')
  unfolding read_records
  read_records-more fuel records bb h = rw (lt→ltb bb.pos (length bb.buf) h, read_records)

  pub read_records-end :
      (fuel : ℕ) (records : List (TsRecord B)) (bb : Reader)
      → length bb.buf ≤ bb.pos
      → read_records B (suc fuel) records bb ≡ ok records
  unfolding read_records
  read_records-end fuel records bb h = rw (le→ltb bb.pos (length bb.buf) h, read_records)

  -- What is left of the buffer is as long as the bytes that come next.
  left-At : (bb : Reader) (bytes : List ℕ) → At bb bytes → length bb.buf - bb.pos ≡ length bytes
  left-At bb bytes at = sym (length-drop bb.pos bb.buf) ∙ ap length at

  pub read_records-rows :
      (rows : List Row) (fuel : ℕ) (records : List (TsRecord B)) (bb : Reader) (rest : List ℕ)
      → All IsRow rows
      → length bb.buf - bb.pos < fuel
      → At bb (rows_bytes rows ++ rest)
      → (fuel' : ℕ) × (length rest < fuel')
        × (read_records B fuel records bb
            ≡ read_records B fuel'
                (records ++ map record_of rows)
                (advance bb (length (rows_bytes rows))))
  read_records-rows [] fuel records bb rest valid h at = (
    fuel,
    omega (arith, left-At bb rest at),
    ap₂ (read_records B fuel) (sym (append-nil records)) (advance-zero bb),
  )
  read_records-rows (row ∷ rows) zero records bb rest valid h at = absurd (omega arith)
  read_records-rows (row ∷ rows) (suc fuel) records bb rest (v, vs) h at =
      let bb' : Reader = advance bb (length (row_bytes row)) in
      let at' : At bb (row_bytes row ++ (rows_bytes rows ++ rest)) =
        at ∙ append_assoc (row_bytes row) (rows_bytes rows) rest in
      let left = left-At bb (row_bytes row ++ (rows_bytes rows ++ rest)) at' in
      let (fuel', enough, run) =
        read_records-rows rows fuel (records ++ (record_of row ∷ [])) bb' rest vs
          (omega (arith, left)) (At-advance bb (row_bytes row) (rows_bytes rows ++ rest) at') in
      (
        fuel',
        enough,
        read_records-more fuel records bb (omega (arith, left))
            ∙ >>=-step _ (record_of row, bb')
                (read_record-row bb row (rows_bytes rows ++ rest) v at') run
            ∙ ap₂ (read_records B fuel')
                (append_assoc records (record_of row ∷ []) (map record_of rows))
                (advance-advance bb (length (row_bytes row)) (length (rows_bytes rows))
                  ∙ ap (advance bb) (sym (length-append (row_bytes row) (rows_bytes rows)))),
      )

  pub read_records-rows_only :
      (rows : List Row)
      → All IsRow rows
      → read_records B (suc (length (rows_bytes rows))) [] (start (rows_bytes rows))
        ≡ ok (map record_of rows)
  read_records-rows_only rows valid = finish (
      read_records-rows rows (suc (length bytes)) [] (start bytes) [] valid (omega arith)
        (sym (append-nil bytes)))
    where
      bytes : List ℕ
      bytes = rows_bytes rows

      finish :
          (fuel' : ℕ) × (0 < fuel')
            × (read_records B (suc (length bytes)) [] (start bytes)
                ≡ read_records B fuel' (map record_of rows) (advance (start bytes) (length bytes)))
          → read_records B (suc (length bytes)) [] (start bytes) ≡ ok (map record_of rows)
      finish (zero, h, e) = absurd (omega arith)
      finish (suc fuel', h, e) =
          e
          ∙ read_records-end fuel' (map record_of rows) (advance (start bytes) (length bytes))
              (omega arith)
