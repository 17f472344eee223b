-- ===== src/Server/GetRange/Size.antt =====
-- How many bytes GetRangeHandler of src/handlers/GetRangeHandler.cpp sends under a limit on the bytes.
use timemachine.Base.{
  ℕ, ◌+◌, ◌^◌, ◌≤◌, ◌<◌, ◌≡◌, refl, List, [], ◌∷◌, map, Bool, true, false, some, length,
  length-append, All, All-map, All-select, select, arith,
}
use timemachine.Protobuf.Runtime.{IsLong}
use timemachine.Server.Cursor.{Entry}
use timemachine.Server.Iter.{RangeRequest, plus}
use timemachine.Server.Iter.Scan.{is_spent}
use timemachine.Server.Iter.Range.{IsSorted}
use timemachine.Server.Iter.Forward.{in_range}
use timemachine.Server.GetRange.{BinaryWriter, Row, IsRow, send_row, send_rows, sent_bytes}
use timemachine.Server.GetRange.Handler.{row_of, Folder, Response, handle_request}
use timemachine.Server.GetRange.Client.{sent_bytes-IsRow, length-send_row}
use timemachine.Server.GetRange.Limits.{within_limits}
use timemachine.Server.GetRange.Answer.{handle_request-forward}

below_limit :
    (request : RangeRequest) (b m : ℕ)
    → 0 < request.maxbytes
    → is_spent request b m ≡ false
    → b < request.maxbytes
below_limit request b m set h = ground arith

module _ (W : BinaryWriter) where
  -- A row with no more bytes than the largest one.
  abbrev Fits : ℕ → Row → Type 0
  Fits largest row = IsRow row × (length row.body + 20 ≤ largest)

  length-send_rows :
      (request : RangeRequest) (largest : ℕ) (rows : List Row) (b m : ℕ)
      → 0 < request.maxbytes
      → request.maxbytes + largest < 2 ^ 64
      → All (Fits largest) rows
      → b < request.maxbytes + largest
      → b + length (send_rows W (within_limits W request rows b m)) < request.maxbytes + largest
  unfolding send_rows
  length-send_rows request largest [] b m set no_wrap fits h = omega arith
  length-send_rows request largest (row ∷ rows) b m set no_wrap ((v, size), fits) h =
      by_limit (is_spent request b m) (below_limit request b m set) (λ below.
        length-send_rows request largest rows (plus b (sent_bytes W row)) (plus m 1) set no_wrap
          fits (omega (arith, sent_bytes-IsRow W row v)))
    where
      later : List Row
      later = within_limits W request rows (plus b (sent_bytes W row)) (plus m 1)

      by_limit :
          (spent : Bool)
          → (spent ≡ false → b < request.maxbytes)
          → (b < request.maxbytes
              → plus b (sent_bytes W row) + length (send_rows W later) < request.maxbytes + largest)
          → b + length (send_rows W (elim spent [ true ↦ [] | false ↦ row ∷ later ]))
            < request.maxbytes + largest
      by_limit true below rest = omega arith
      by_limit false below rest = omega (
        arith,
        sent_bytes-IsRow W row v,
        rest (below refl),
        below refl,
        length-send_row W row v,
        length-append (send_row W row) (send_rows W later),
      )

module _ (W : BinaryWriter) (body_of : List ℕ → List ℕ) where
  -- With a limit on the bytes, GetRangeHandler answers a range forward with less than the limit and the
  -- largest row together: if no row of the folder has more bytes than that, the entries of the folder
  -- are sorted by the comparator and carry a timestamp each, the numbers fit in 64 bits, the sum of both
  -- too, each body is shorter than 2 ^ 31 bytes, and the loop has fuel for each entry and one round more.
  pub handle_request-max_bytes :
      (fuel largest : ℕ) (folder : Folder) (request : RangeRequest)
      → IsSorted folder.rows
      → All (λ e. Fits W largest (row_of W body_of e)) folder.rows
      → request.reverse ≡ false
      → IsLong request.from
      → 0 < request.maxbytes
      → request.maxbytes + largest < 2 ^ 64
      → length folder.rows < fuel
      → (response : Response) × (handle_request W body_of fuel (some folder) request
          ≡ some response)
        × (length response.body < request.maxbytes + largest)
  handle_request-max_bytes fuel largest folder request sorted fits forward long set no_wrap room = (
    record { status = 200; body = send_rows W (within_limits W request found 0 0) },
    handle_request-forward W body_of fuel folder request sorted forward long room,
    omega (arith, length-send_rows W request largest found 0 0 set no_wrap all_fit (omega arith)),
  )
    where
      entries : List Entry
      entries = select (in_range request.from request.till) folder.rows

      found : List Row
      found = map (row_of W body_of) entries

      all_fit : All (Fits W largest) found
      all_fit =
          All-map (λ e. Fits W largest (row_of W body_of e)) (Fits W largest) (row_of W body_of)
            (λ e h. h) entries
            (All-select (λ e. Fits W largest (row_of W body_of e))
              (in_range request.from request.till) folder.rows fits)
