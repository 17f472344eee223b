-- ===== src/Server/Subsampling.antt =====
-- SubsamplingHandler::handleRequest of src/handlers/SubsamplingHandler.cpp, and `GetUniqueRangeForTS`
-- of src/DbClient.cpp. RocksDB, the encoding of protobuf's `Data` and `rand` are no part of the
-- repository.
pub mod Period
pub mod Amount
pub mod Stack
use timemachine.Base.{
  ℕ, zero, suc, ◌+◌, ◌*◌, ◌-◌, ◌^◌, ◌≡◌, List, [], ◌∷◌, ◌++◌, map, length, Bool, true, false, ◌&&◌,
  Option, none, some, leb, ltb, ◌==◌, if◌then◌else◌,
}
use timemachine.Protobuf.Runtime.{IsLong}
use timemachine.Server.Key.{Key, serialize_id}
use timemachine.Server.Cursor.{Entry, Cursors}
use timemachine.Server.GenerateId.{UniqueRange, unique_at, get_unique_range}
use timemachine.Server.GetRange.{BinaryWriter, Row, send_row, send_rows}
use timemachine.Server.GetRange.Handler.{Response}

-- The key of a timestamp; `unique` has its default.
abbrev pub key_of : ℕ → List ℕ
key_of timestamp = serialize_id (record { timestamp = timestamp; unique = 0 })

unfoldable pub get_unique_range_for_ts : {rows : List Entry} → Cursors rows → ℕ → ℕ → UniqueRange
get_unique_range_for_ts C from_ts till_ts = record {
  from = unique_at C (C.seek_for_prev (key_of from_ts));
  till = unique_at C (C.seek_for_prev (key_of till_ts));
}

-- A folder whose values are read by their keys. `get_batch` is GetBatch: a string for each key, which
-- is empty if its status is not ok.
pub record Store : Type 1 where
  pub rows : List Entry
  pub cursors : Cursors rows
  pub get_batch : List (List ℕ) → List (List ℕ)
  pub length-get_batch : (keys : List (List ℕ)) → length (get_batch keys) ≡ length keys

pub record SubsampleRequest : Type 0 where
  pub from : ℕ
  pub till : ℕ
  pub amount : ℕ
  pub batch_size : ℕ

unfoldable pub range_of : (folder : Store) → SubsampleRequest → UniqueRange
range_of folder request =
    if (request.from == 0) && (request.till == 0)
    then get_unique_range folder.cursors
    else get_unique_range_for_ts folder.cursors request.from request.till

-- `step`; the comparison is one of unsigned numbers.
unfoldable pub step_of : SubsampleRequest → ℕ
step_of request =
    let step = if request.batch_size == 0 then 100 else request.batch_size in
    if ltb request.amount step then request.amount else step

-- A call returns, its array does not fit on the stack, which C++ leaves undefined, or the model is out
-- of fuel.
pub data Run (A : Type 0) : Type 0 where
  done : A → Run A
  crashed out_of_fuel : Run A

-- `parse` is `ParseFromString` of a `Data`, `random` the number that `rand` leads to in a range at its
-- n-th call, `stack` the bytes that the stack has for the array of a round.
module _ (W : BinaryWriter) (parse : List ℕ → Row) (random : UniqueRange → ℕ → ℕ) (stack : ℕ) where
  -- `char key[16 * step]`: the product is an `int`, and the array is on the stack.
  abbrev pub has_room : ℕ → Bool
  has_room step = ltb (16 * step) (2 ^ 31) && leb (16 * step) stack

  -- The keys of a round, the first at the given call of `rand`: each is the next 16 bytes of the array,
  -- which `has_room` for `step` of them.
  unfoldable pub random_keys : UniqueRange → ℕ → ℕ → List (List ℕ)
  random_keys range call zero = []
  random_keys range call (suc step) =
      serialize_id (record { timestamp = 0; unique = random range call })
      ∷ random_keys range (call + 1) step

  -- The loop: `i` is how much is left, where a number that is not positive is 0.
  unfoldable pub sample : (folder : Store) → UniqueRange → ℕ → ℕ → ℕ → ℕ → List ℕ → Run (List ℕ)
  sample folder range step zero i call ostr = out_of_fuel
  sample folder range step (suc fuel) i call ostr =
      let rest =
        sample folder range step fuel (i - step) (call + step)
          (ostr ++ send_rows W (map parse (folder.get_batch (random_keys range call step)))) in
      if ltb 0 i then (if has_room step then rest else crashed) else done ostr

  abbrev pub answer : Run (List ℕ) → Run Response
  answer (done ostr) = done (record { status = 200; body = ostr })
  answer crashed = crashed
  answer out_of_fuel = out_of_fuel

  -- `int i = amount` is negative from 2 ^ 31 on.
  unfoldable pub handle_subsampling : ℕ → Option Store → SubsampleRequest → Run Response
  handle_subsampling fuel none request = done (record { status = 404; body = [] })
  handle_subsampling fuel (some folder) request = answer (
      sample folder (range_of folder request) (step_of request) fuel
        (if ltb request.amount (2 ^ 31) then request.amount else 0) 0 [])
