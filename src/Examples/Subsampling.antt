-- ===== src/Examples/Subsampling.antt =====
-- The results on samples, on a folder of three entries.
use timemachine.Base.{
  ℕ, ◌+◌, ◌<◌, ◌≤◌, ◌≡◌, refl, List, [], ◌∷◌, map, length, length-map, some, All, arith,
}
use timemachine.Protobuf.Outcome.{ok}
use timemachine.Sample.Buffers.{byte_buffers, binary_writer}
use timemachine.Sample.Cursors.{cursors}
use timemachine.Index.TsRecords.{TsRecord, decode_ts_record}
use timemachine.Server.Cursor.{Entry, IsEntry}
use timemachine.Server.GenerateId.{UniqueRange}
use timemachine.Server.GetRange.{Row, IsRow}
use timemachine.Server.GetRange.Handler.{Response}
use timemachine.Server.Subsampling.{
  Store, SubsampleRequest, get_unique_range_for_ts, range_of, step_of, handle_subsampling, done,
}
use timemachine.Server.Subsampling.Amount.{step_of-amount, decode_ts_record-handle_subsampling}
use timemachine.Server.Subsampling.Period.{get_unique_range_for_ts_lem, range_of-unended}

abbrev first : Entry
first = record { id = record { timestamp = 100; unique = 1 }; value = 7 ∷ [] }

abbrev second : Entry
second = record { id = record { timestamp = 200; unique = 2 }; value = 8 ∷ 9 ∷ [] }

abbrev third : Entry
third = record { id = record { timestamp = 300; unique = 3 }; value = [] }

abbrev rows : List Entry
rows = first ∷ second ∷ third ∷ []

-- Each key finds the same value.
abbrev folder : Store
folder = record {
  rows = rows;
  cursors = cursors rows;
  get_batch = map (λ key. 7 ∷ []);
  length-get_batch = length-map (λ key. 7 ∷ []);
}

abbrev parse : List ℕ → Row
parse [] = record { timestamp = 0; unique = 0; body = [] }
parse (byte ∷ bytes) = record { timestamp = 100; unique = 1; body = byte ∷ [] }

parse-IsRow : (bytes : List ℕ) → IsRow (parse bytes)
parse-IsRow [] = (omega arith, omega arith, omega arith)
parse-IsRow (byte ∷ bytes) = (omega arith, omega arith, omega arith)

abbrev random : UniqueRange → ℕ → ℕ
random range call = range.from

rows-IsEntry : All IsEntry rows
rows-IsEntry = (
  ((omega arith, omega arith), omega arith),
  (((omega arith, omega arith), omega arith), (((omega arith, omega arith), omega arith), _)),
)

-- Three rows, two at a time: four are sent.
abbrev three_by_two : SubsampleRequest
three_by_two = record { from = 0; till = 0; amount = 3; batch_size = 2 }

abbrev since_150 : SubsampleRequest
since_150 = record { from = 150; till = 0; amount = 3; batch_size = 2 }

decode_ts_record-handle_subsampling_example :
    (response : Response) × (records : List (TsRecord byte_buffers)) × (handle_subsampling
        binary_writer parse random 1000 4
        (some folder)
        three_by_two
      ≡ done response)
    × (response.status ≡ 200)
    × (decode_ts_record byte_buffers response.body ≡ ok records)
    × (3 ≤ length records)
    × (length records < 3 + step_of three_by_two)
decode_ts_record-handle_subsampling_example =
    decode_ts_record-handle_subsampling binary_writer parse random 1000 parse-IsRow byte_buffers 4
      folder three_by_two (omega arith) (omega arith) (omega arith)
      (omega (arith, step_of-amount three_by_two)) (omega (arith, step_of-amount three_by_two))

-- A hundred keys, for which a stack of 1000 bytes has no room.
abbrev hundred_at_once : SubsampleRequest
hundred_at_once = record { from = 0; till = 0; amount = 100; batch_size = 100 }

get_unique_range_for_ts_lem_example :
    get_unique_range_for_ts (cursors rows) 150 300 ≡ record { from = 1; till = 2 }
get_unique_range_for_ts_lem_example =
    get_unique_range_for_ts_lem (cursors rows) 150 300 [] first [] second (third ∷ []) (omega arith)
      (omega arith) (omega arith) (omega arith) rows-IsEntry refl _ (omega arith)
      ((omega arith, omega arith), ((omega arith, omega arith), _)) _ (omega arith)
      ((omega arith, omega arith), _)

range_of-unended_example : (range_of folder since_150).till ≡ 0
range_of-unended_example =
    range_of-unended folder since_150 (omega arith) refl rows-IsEntry
      (omega arith, (omega arith, (omega arith, _)))
