-- ===== src/Server/GetRange/Answer.antt =====
-- GetRangeHandler of src/handlers/GetRangeHandler.cpp on the store, and `decodeTsRecord` of
-- tsclient/recstore-ts/src/index.ts on what it sends.
use timemachine.Base.{
  ℕ, arith, take, All-both, All-map, All-select, ◌^◌, ◌≡◌, refl, sym, ap, ◌∙◌, List, [], ◌∷◌, ◌++◌,
  map, Bool, true, false, some, map_option, All, append_assoc, append-nil, select, length, ◌<◌,
}
use timemachine.Protobuf.Runtime.{IsLong}
use timemachine.Protobuf.Outcome.{ok}
use timemachine.Index.TsRecords.{ByteBuffers, decode_ts_record}
use timemachine.Index.TsRecords.Laws.{record_of}
use timemachine.Server.Cursor.{Entry, IsEntry}
use timemachine.Server.Iter.{RangeRequest, plus}
use timemachine.Server.Iter.Scan.{is_spent, deliver}
use timemachine.Server.Iter.Range.{IsSorted}
use timemachine.Server.Iter.Forward.{in_range, iter-forward}
use timemachine.Server.GetRange.{BinaryWriter, Row, IsRow, send_row, send_rows, sent_bytes}
use timemachine.Server.GetRange.Handler.{row_of, Folder, Response, on_entry, handle_request}
use timemachine.Server.GetRange.Client.{decode_ts_record-send_rows}
use timemachine.Server.GetRange.Limits.{within_limits, All-within_limits, within_limits-take}

module _ (W : BinaryWriter) (body_of : List ℕ → List ℕ) where
  deliver-send_rows :
      (request : RangeRequest) (entries : List Entry) (ostr : List ℕ) (b m : ℕ)
      → deliver body_of (on_entry W body_of) request entries ostr b m
        ≡ ostr ++ send_rows W (within_limits W request (map (row_of W body_of) entries) b m)
  unfolding on_entry send_rows
  deliver-send_rows request [] ostr b m = sym (append-nil ostr)
  deliver-send_rows request (entry ∷ entries) ostr b m = unless_spent (is_spent request b m) (
      unfold on_entry send_rows in
      deliver-send_rows request entries (ostr ++ send_row W (row_of W body_of entry))
        (plus b (sent_bytes W (row_of W body_of entry))) (plus m 1))
    where
      row : Row
      row = row_of W body_of entry

      later : List Row
      later =
          within_limits W request (map (row_of W body_of) entries) (plus b (sent_bytes W row))
            (plus m 1)

      unless_spent :
          (spent : Bool)
          → deliver body_of
              (on_entry W body_of)
              request
              entries
              (ostr ++ send_row W row)
              (plus b (sent_bytes W row))
              (plus m 1)
            ≡ (ostr ++ send_row W row) ++ send_rows W later
          → elim spent [
            | true ↦ ostr
            | false ↦
                deliver body_of
                  (on_entry W body_of)
                  request
                  entries
                  (ostr ++ send_row W row)
                  (plus b (sent_bytes W row))
                  (plus m 1)
          ]
            ≡ ostr ++ send_rows W (elim spent [ true ↦ [] | false ↦ row ∷ later ])
      unless_spent true rest = sym (append-nil ostr)
      unless_spent false rest = rest ∙ append_assoc ostr (send_row W row) (send_rows W later)

  -- A range forward is sent as the rows of its entries up to the limits.
  pub handle_request-forward :
      (fuel : ℕ) (folder : Folder) (request : RangeRequest)
      → IsSorted folder.rows
      → request.reverse ≡ false
      → IsLong request.from
      → length folder.rows < fuel
      → handle_request W body_of fuel (some folder) request
        ≡ some (record {
          status = 200;
          body = send_rows W (
              within_limits W request
                (map (row_of W body_of) (select (in_range request.from request.till) folder.rows))
                0
                0);
        })
  unfolding handle_request
  handle_request-forward fuel folder request sorted forward long room =
      ap (map_option (λ ostr. record { status = 200; body = ostr })) (
        iter-forward body_of (on_entry W body_of) folder.rows folder.cursors fuel request [] sorted
          forward long room
        ∙ ap some (
            deliver-send_rows request (select (in_range request.from request.till) folder.rows) [] 0
              0))

  -- With a limit on the messages and none on the bytes, GetRangeHandler answers a range forward with
  -- status 200 and with the rows of the first entries of the range, as many as the limit says: if the
  -- limit is not 0 and fits in 64 bits, the entries of the folder are sorted by the comparator and carry a
  -- timestamp each, the numbers fit in 64 bits, and the loop has fuel for each entry and one round more.
  pub handle_request-take :
      (fuel : ℕ) (folder : Folder) (request : RangeRequest)
      → IsSorted folder.rows
      → request.reverse ≡ false
      → IsLong request.from
      → request.maxbytes ≡ 0
      → 0 < request.maxmessages
      → IsLong request.maxmessages
      → length folder.rows < fuel
      → handle_request W body_of fuel (some folder) request
        ≡ some (record {
          status = 200;
          body = send_rows W (
              take request.maxmessages
                (map (row_of W body_of) (select (in_range request.from request.till) folder.rows)));
        })
  handle_request-take fuel folder request sorted forward long unset set limit room =
      handle_request-forward fuel folder request sorted forward long room
      ∙ ap (λ rows. some (record { status = 200; body = send_rows W rows }))
          (within_limits-take W request
            (map (row_of W body_of) (select (in_range request.from request.till) folder.rows)) 0 0
            request.maxmessages unset set limit (omega arith))

  -- `decodeTsRecord` of the bytes that GetRangeHandler sends for a range forward returns one record for
  -- each entry of the range, in the order of the keys, until a limit of the request is reached: if the
  -- entries of the folder are sorted by the comparator and carry a timestamp each, the numbers fit in
  -- 64 bits, each body is shorter than 2 ^ 31 bytes, and the loop has fuel for each entry and one round
  -- more. The status is 200.
  pub decode_ts_record-handle_request :
      (B : ByteBuffers) (fuel : ℕ) (folder : Folder) (request : RangeRequest)
      → IsSorted folder.rows
      → All (λ e. length (body_of e.value) < 2 ^ 31) folder.rows
      → request.reverse ≡ false
      → IsLong request.from
      → length folder.rows < fuel
      → (response : Response) × (handle_request W body_of fuel (some folder) request
          ≡ some response)
        × (response.status ≡ 200)
        × (decode_ts_record B response.body
            ≡ ok (
                map (record_of B) (
                  within_limits W request
                    (map
                      (row_of W body_of)
                      (select (in_range request.from request.till) folder.rows))
                    0
                    0)))
  decode_ts_record-handle_request B fuel folder request sorted short forward long room = (
    record { status = 200; body = send_rows W sent },
    handle_request-forward fuel folder request sorted forward long room,
    refl,
    decode_ts_record-send_rows W B sent valid,
  )
    where
      sent : List Row
      sent =
          within_limits W request
            (map (row_of W body_of) (select (in_range request.from request.till) folder.rows)) 0 0

      valid : All IsRow sent
      valid =
          All-within_limits W IsRow request
            (map (row_of W body_of) (select (in_range request.from request.till) folder.rows)) 0 0
            (All-map (λ e. IsRow (row_of W body_of e)) IsRow (row_of W body_of) (λ e h. h)
              (select (in_range request.from request.till) folder.rows)
              (All-select (λ e. IsRow (row_of W body_of e)) (in_range request.from request.till)
                folder.rows
                (All-both IsEntry (λ e. length (body_of e.value) < 2 ^ 31)
                  (λ e. IsRow (row_of W body_of e)) (λ e ((t, u), _) size. (t, u, size)) folder.rows
                  sorted.0 short)))
