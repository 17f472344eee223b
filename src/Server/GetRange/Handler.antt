-- ===== src/Server/GetRange/Handler.antt =====
-- GetRangeHandler::handleRequest of src/handlers/GetRangeHandler.cpp as a whole: the folder, the range
-- request, and the callback that `DbClient::Iter` calls for each entry.
use timemachine.Base.{ℕ, List, [], ◌++◌, Option, none, some, map_option}
use timemachine.Server.Key.{Key}
use timemachine.Server.Cursor.{Entry, Cursors}
use timemachine.Server.Iter.{RangeRequest, iter}
use timemachine.Server.GetRange.{BinaryWriter, Row, send_row, sent_bytes}

-- What `GetColumnFamily` finds under a name.
pub record Folder : Type 1 where
  pub rows : List Entry
  pub cursors : Cursors rows

pub record Response : Type 0 where
  pub status : ℕ
  pub body : List ℕ

-- `body_of` is `ParseFromString` and `data()` of protobuf's `Data`.
module _ (W : BinaryWriter) (body_of : List ℕ → List ℕ) where
  abbrev pub row_of : Entry → Row
  row_of entry = record {
    timestamp = entry.id.timestamp;
    unique = entry.id.unique;
    body = body_of entry.value;
  }

  -- The callback: it writes to the stream of the response.
  unfoldable pub on_entry : List ℕ → Key → List ℕ → List ℕ × ℕ
  on_entry ostr key body =
      let row : Row = record { timestamp = key.timestamp; unique = key.unique; body = body } in
      (ostr ++ send_row W row, sent_bytes W row)

  -- The status that is set, and the bytes that are written.
  unfoldable pub handle_request : ℕ → Option Folder → RangeRequest → Option Response
  handle_request fuel none request = some (record { status = 404; body = [] })
  handle_request fuel (some folder) request =
      map_option (λ ostr. record { status = 200; body = ostr })
        (iter body_of on_entry folder.rows folder.cursors fuel request [])
