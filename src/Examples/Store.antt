-- ===== src/Examples/Store.antt =====
-- The results on the store of the server, on a folder of three entries.
use timemachine.Base.{
  ℕ, ◌<◌, length, ◌≡◌, ◌≢◌, inr, refl, ℤ, List, [], ◌∷◌, map, reverse, take, true, false, some,
  Pairwise, select, arith,
}
use timemachine.Protobuf.Outcome.{ok}
use timemachine.Sample.Buffers.{byte_buffers, binary_writer}
use timemachine.Sample.Cursors.{cursors}
use timemachine.Index.TsRecords.{decode_ts_record}
use timemachine.Index.TsRecords.Laws.{record_of}
use timemachine.Server.Key.{Key, serialize_id}
use timemachine.Server.IdComparator.{compare}
use timemachine.Server.IdComparator.Order.{order_of, position_of, compare-order_of, compare_cycle}
use timemachine.Server.Cursor.{Entry, IsEntry}
use timemachine.Server.Iter.{RangeRequest, iter}
use timemachine.Server.Iter.Scan.{deliver}
use timemachine.Server.Iter.Range.{IsBefore, IsSorted}
use timemachine.Server.Iter.Forward.{in_range, iter-forward}
use timemachine.Server.Iter.Newer.{is_newer, in_reverse_range}
use timemachine.Server.Iter.Backward.{iter-reverse, iter-reverse_beyond}
use timemachine.Server.GenerateId.{generate_id, generate_ids, open_folder}
use timemachine.Server.GenerateId.Keys.{generate_ids-distinct, generate_id-reopened}
use timemachine.Server.GetRange.{send_rows}
use timemachine.Server.GetRange.Handler.{Folder, Response, row_of, on_entry, handle_request}
use timemachine.Server.GetRange.Limits.{within_limits}
use timemachine.Server.GetRange.Size.{handle_request-max_bytes}
use timemachine.Server.GetRange.Answer.{handle_request-take, decode_ts_record-handle_request}

-- The value of an entry is its body here.
abbrev body_of : List ℕ → List ℕ
body_of value = value

abbrev first : Entry
first = record { id = record { timestamp = 100; unique = 1 }; value = 7 ∷ [] }

abbrev second : Entry
second = record { id = record { timestamp = 200; unique = 2 }; value = 8 ∷ 9 ∷ [] }

abbrev third : Entry
third = record { id = record { timestamp = 300; unique = 3 }; value = [] }

abbrev rows : List Entry
rows = first ∷ second ∷ third ∷ []

abbrev folder : Folder
folder = record { rows = rows; cursors = cursors rows }

first-IsEntry : IsEntry first
first-IsEntry = ((omega arith, omega arith), omega arith)

second-IsEntry : IsEntry second
second-IsEntry = ((omega arith, omega arith), omega arith)

third-IsEntry : IsEntry third
third-IsEntry = ((omega arith, omega arith), omega arith)

first-IsBefore-second : IsBefore first second
first-IsBefore-second =
    compare-order_of first.id second.id first-IsEntry.0 second-IsEntry.0 (omega arith) (omega arith)

rows-IsSorted : IsSorted rows
rows-IsSorted = (
  (first-IsEntry, (second-IsEntry, (third-IsEntry, _))),
  (
    (
      first-IsBefore-second,
      (
        compare-order_of first.id third.id first-IsEntry.0 third-IsEntry.0 (omega arith)
            (omega arith),
        _,
      ),
    ),
    (
      (
        compare-order_of second.id third.id second-IsEntry.0 third-IsEntry.0 (omega arith)
            (omega arith),
        _,
      ),
      (_, _),
    ),
  ),
)

compare-order_of_example :
    compare (serialize_id first.id) (serialize_id second.id)
    ≡ order_of (position_of first.id) (position_of second.id)
compare-order_of_example =
    compare-order_of first.id second.id first-IsEntry.0 second-IsEntry.0 (omega arith) (omega arith)

abbrev early : Key
early = record { timestamp = 100; unique = 9 }

abbrev late : Key
late = record { timestamp = 200; unique = 1 }

abbrev bare : Key
bare = record { timestamp = 0; unique = 5 }

compare_cycle_example :
    (compare (serialize_id late) (serialize_id bare) ≡ ℤ.negsuc 0)
    × (compare (serialize_id bare) (serialize_id early) ≡ ℤ.negsuc 0)
    × (compare (serialize_id early) (serialize_id late) ≡ ℤ.negsuc 0)
compare_cycle_example =
    compare_cycle early late bare (omega arith, omega arith) (omega arith, omega arith)
      (omega arith, omega arith) refl (omega arith) (omega arith) (omega arith) (omega arith)

-- From the second timestamp to the third, one message at most.
abbrev forward : RangeRequest
forward = record { from = 200; till = 300; maxmessages = 1; maxbytes = 0; reverse = false }

abbrev backward : RangeRequest
backward = record { from = 100; till = 250; maxmessages = 0; maxbytes = 0; reverse = true }

-- Every entry is later than the upper bound.
abbrev beyond : RangeRequest
beyond = record { from = 0; till = 50; maxmessages = 0; maxbytes = 0; reverse = true }

iter-forward_example :
    iter body_of (on_entry binary_writer body_of) rows (cursors rows) 4 forward []
    ≡ some (
        deliver body_of
          (on_entry binary_writer body_of)
          forward
          (select (in_range 200 300) rows)
          []
          0
          0)
iter-forward_example =
    iter-forward body_of (on_entry binary_writer body_of) rows (cursors rows) 4 forward []
      rows-IsSorted refl (omega arith) (omega arith)

iter-reverse_example :
    iter body_of (on_entry binary_writer body_of) rows (cursors rows) 4 backward []
    ≡ some (
        deliver body_of
          (on_entry binary_writer body_of)
          backward
          (select (in_reverse_range 100 250) (reverse rows))
          []
          0
          0)
iter-reverse_example =
    iter-reverse body_of (on_entry binary_writer body_of) rows (cursors rows) 4 backward [] first
      (second ∷ third ∷ []) rows-IsSorted refl refl (omega arith) (inr (omega arith)) (omega arith)

iter-reverse_beyond_example :
    iter body_of (on_entry binary_writer body_of) rows (cursors rows) 4 beyond []
    ≡ some (
        deliver body_of
          (on_entry binary_writer body_of)
          beyond
          (select (is_newer 0) (reverse rows))
          []
          0
          0)
iter-reverse_beyond_example =
    iter-reverse_beyond body_of (on_entry binary_writer body_of) rows (cursors rows) 4 beyond []
      rows-IsSorted refl (omega arith) (omega arith, (omega arith, (omega arith, _))) (omega arith)

decode_ts_record-handle_request_example :
    (response : Response) × (handle_request binary_writer body_of 4 (some folder) forward
      ≡ some response)
    × (response.status ≡ 200)
    × (decode_ts_record byte_buffers response.body
        ≡ ok (
            map (record_of byte_buffers) (
              within_limits binary_writer forward
                (map (row_of binary_writer body_of) (select (in_range 200 300) rows))
                0
                0)))
decode_ts_record-handle_request_example =
    decode_ts_record-handle_request binary_writer body_of byte_buffers 4 folder forward
      rows-IsSorted (omega arith, (omega arith, (omega arith, _))) refl (omega arith) (omega arith)

handle_request-take_example :
    handle_request binary_writer body_of 4 (some folder) forward
    ≡ some (record {
      status = 200;
      body =
          send_rows binary_writer
            (take 1 (map (row_of binary_writer body_of) (select (in_range 200 300) rows)));
    })
handle_request-take_example =
    handle_request-take binary_writer body_of 4 folder forward rows-IsSorted refl (omega arith) refl
      (omega arith) (omega arith) (omega arith)

-- All from the first timestamp on, ten bytes at most: a row is sent past the limit.
abbrev ten_bytes : RangeRequest
ten_bytes = record { from = 100; till = 0; maxmessages = 0; maxbytes = 10; reverse = false }

handle_request-max_bytes_example :
    (response : Response) × (handle_request binary_writer body_of 4 (some folder) ten_bytes
      ≡ some response)
    × (length response.body < 32)
handle_request-max_bytes_example =
    handle_request-max_bytes binary_writer body_of 4 22 folder ten_bytes rows-IsSorted
      (
        ((omega arith, omega arith, omega arith), omega arith),
        (
          ((omega arith, omega arith, omega arith), omega arith),
          (((omega arith, omega arith, omega arith), omega arith), _),
        ),
      )
      refl (omega arith) (omega arith) (omega arith) (omega arith)

generate_ids-distinct_example :
    Pairwise
      (λ a b. a.unique ≢ b.unique)
      (generate_ids ((5, 0) ∷ (6, 100) ∷ (7, 100) ∷ []) 18446744073709551615)
generate_ids-distinct_example =
    generate_ids-distinct ((5, 0) ∷ (6, 100) ∷ (7, 100) ∷ []) 18446744073709551615 (omega arith)
      (omega arith)

generate_id-reopened_example : (generate_id 1000 300 (open_folder (cursors rows))).0 ≡ third.id
generate_id-reopened_example =
    generate_id-reopened rows (cursors rows) third (second ∷ first ∷ []) 1000 refl third-IsEntry
