-- ===== src/Examples/Save.antt =====
-- The result on a body that is stored and read back, on a folder of one entry.
use timemachine.Base.{ℕ, ◌≡◌, inl, refl, List, [], ◌∷◌, false, some, arith}
use timemachine.Protobuf.Outcome.{ok}
use timemachine.Sample.Buffers.{byte_buffers, binary_writer}
use timemachine.Sample.Database.{database, data_format}
use timemachine.Index.TsRecords.{TsRecord, decode_ts_record}
use timemachine.Index.TsRecords.Laws.{record_of}
use timemachine.Server.Key.{serialize_id, deserialize_id}
use timemachine.Server.IdComparator.{compare, compare_ids, compare_by_ts}
use timemachine.Server.GenerateId.{generate_id}
use timemachine.Server.Cursor.{Entry, IsEntry}
use timemachine.Server.Iter.{RangeRequest}
use timemachine.Server.Iter.Range.{IsSorted}
use timemachine.Server.GetRange.Handler.{Response, handle_request}
use timemachine.Server.Save.{Among, SaveFolder, handle_save}
use timemachine.Server.Save.Stored.{stored_folder, handle_request-handle_save}

abbrev first : Entry
first = record { id = record { timestamp = 100; unique = 1 }; value = 7 ∷ [] }

abbrev folder : SaveFolder data_format database
folder = record { state = first ∷ []; last_unique = 2 }

abbrev body : List ℕ
body = 8 ∷ 9 ∷ []

abbrev all_from_200 : RangeRequest
all_from_200 = record { from = 200; till = 0; maxmessages = 0; maxbytes = 0; reverse = false }

first-IsEntry : IsEntry first
first-IsEntry = ((omega arith, omega arith), omega arith)

folder-IsSorted : IsSorted (first ∷ [])
folder-IsSorted = ((first-IsEntry, _), (_, _))

handle_request-handle_save_example :
    (response : Response) × (records : List (TsRecord byte_buffers)) × (handle_request binary_writer
        (λ value. value)
        3
        (some (
          stored_folder data_format database
            (handle_save data_format database 300 0 body folder).1))
        all_from_200
      ≡ some response)
    × (decode_ts_record byte_buffers response.body ≡ ok records)
    × Among
        (record_of byte_buffers (record {
          timestamp = (handle_save data_format database 300 0 body folder).0.ts;
          unique = (handle_save data_format database 300 0 body folder).0.uniq;
          body = body;
        }))
        records
unfolding handle_save generate_id compare serialize_id deserialize_id compare_ids compare_by_ts
handle_request-handle_save_example =
    handle_request-handle_save binary_writer byte_buffers data_format database 3 300 0 body folder
      all_from_200 (omega arith, omega arith) (omega arith) refl folder-IsSorted (omega arith, _)
      (omega arith) refl (omega arith) (omega arith) (inl refl) refl refl (omega arith)
