-- ===== src/Server/GetRange/Client.antt =====
-- GetRangeHandler::handleRequest of src/handlers/GetRangeHandler.cpp on one side,
-- `decodeTsRecord` of tsclient/recstore-ts/src/index.ts on the other.
use timemachine.Base.{
  arith, ◌+◌, ◌≡◌, refl, sym, ap, ap₂, ◌∙◌, List, [], ◌∷◌, ◌++◌, map, length, All, lengths,
}
use timemachine.Protobuf.Outcome.{ok}
use timemachine.Index.TsRecords.{ByteBuffers, decode_ts_record}
use timemachine.Index.TsRecords.Laws.{row_bytes, rows_bytes, record_of, read_records-rows_only}
use timemachine.Index.TsRecords.Total.{decode_ts_record-eq}
use timemachine.Server.GetRange.{BinaryWriter, Row, IsRow, send_row, send_rows, sent_bytes}

module _ (W : BinaryWriter) where
  send_row-row_bytes : (row : Row) → IsRow row → send_row W row ≡ row_bytes row
  unfolding send_row
  send_row-row_bytes row (t, u, s) =
      ap₂ (λ a b. a ++ b) (W.put_long_lem row.timestamp t)
        (ap₂ (λ a b. a ++ b) (W.put_long_lem row.unique u)
          (ap (λ a. a ++ row.body) (W.put_int_lem (length row.body) s)))

  send_rows-rows_bytes : (rows : List Row) → All IsRow rows → send_rows W rows ≡ rows_bytes rows
  unfolding send_rows
  send_rows-rows_bytes [] valid = refl
  send_rows-rows_bytes (row ∷ rows) (v, vs) =
      ap₂ (λ a b. a ++ b) (send_row-row_bytes row v) (send_rows-rows_bytes rows vs)

  pub sent_bytes-IsRow : (row : Row) → IsRow row → sent_bytes W row ≡ length row.body + 20
  unfolding sent_bytes
  sent_bytes-IsRow row (t, u, s) = ground arith

  pub length-send_row : (row : Row) → IsRow row → length (send_row W row) ≡ sent_bytes W row
  length-send_row row v =
      ap length (send_row-row_bytes row v) ∙ omega lengths ∙ sym (sent_bytes-IsRow row v)

  -- `decodeTsRecord` of the bytes that GetRangeHandler sends for rows returns one record for each, in
  -- order, with its timestamp and one entry of its unique number and its body, if the numbers of the
  -- rows fit in 64 bits and each body is shorter than 2 ^ 31 bytes.
  pub decode_ts_record-send_rows :
      (B : ByteBuffers) (rows : List Row)
      → All IsRow rows
      → decode_ts_record B (send_rows W rows) ≡ ok (map (record_of B) rows)
  decode_ts_record-send_rows B rows valid =
      ap (decode_ts_record B) (send_rows-rows_bytes rows valid)
      ∙ decode_ts_record-eq B (rows_bytes rows)
      ∙ read_records-rows_only B rows valid
