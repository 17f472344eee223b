-- ===== src/Server/GenerateId.antt =====
-- The IDs of new entries: `DbClient::GenerateId` and `GetUniqueRange` of src/DbClient.cpp, and the
-- number that LocalDBClient of src/LocalDBClient.cpp starts a folder with. The clock is an argument.
pub mod Keys
use timemachine.Base.{ℕ, List, [], ◌∷◌, Bool, true, false, ◌==◌, if◌then◌else◌}
use timemachine.Server.Key.{Key, deserialize_id}
use timemachine.Server.Cursor.{Entry, Cursors}
use timemachine.Server.Iter.{plus}

pub record UniqueRange : Type 0 where
  pub from : ℕ
  pub till : ℕ

-- The unique number under the iterator; `0` is the value before the `if`.
abbrev pub unique_at : {rows : List Entry} (C : Cursors rows) → C.Cursor → ℕ
unique_at C iter = if C.is_valid iter then (deserialize_id (C.key iter)).unique else 0

unfoldable pub get_unique_range : {rows : List Entry} → Cursors rows → UniqueRange
get_unique_range C = record {
  from = unique_at C C.seek_to_first;
  till = unique_at C C.seek_to_last;
}

-- `lastUnique` of a folder that is opened.
unfoldable pub open_folder : {rows : List Entry} → Cursors rows → ℕ
open_folder C = (get_unique_range C).till

-- The ID, and `lastUnique` after `fetch_add`.
unfoldable pub generate_id : ℕ → ℕ → ℕ → Key × ℕ
generate_id now ts last_unique =
    (record { timestamp = if ts == 0 then now else ts; unique = last_unique }, plus last_unique 1)

-- The IDs of calls one after the other, each with its time and the timestamp that it is given.
unfoldable pub generate_ids : List (ℕ × ℕ) → ℕ → List Key
generate_ids [] last_unique = []
generate_ids ((now, ts) ∷ calls) last_unique =
    let (id, next_unique) = generate_id now ts last_unique in id ∷ generate_ids calls next_unique
