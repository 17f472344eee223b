-- ===== src/Server/IdComparator.antt =====
-- The comparator by which RocksDB sorts the keys of a folder: `Compare` and its parts in
-- src/IDComparator.cpp. An `int` that is compared with 0 is an integer.
pub mod Order
use timemachine.Base.{ℕ, List, Bool, true, false, ◌||◌, ℤ, ltb, ◌==◌, if◌then◌else◌}
use timemachine.Server.Key.{Key, deserialize_id}

unfoldable pub compare_by_ts : Key → Key → ℤ
compare_by_ts first second =
    if first.timestamp == 0 || second.timestamp == 0
    then ℤ.pos 0
    else (if ltb first.timestamp second.timestamp
        then ℤ.negsuc 0
        else (if ltb second.timestamp first.timestamp then ℤ.pos 1 else ℤ.pos 0))

unfoldable pub compare_by_unique : Key → Key → ℤ
compare_by_unique first second =
    if ltb first.unique second.unique
    then ℤ.negsuc 0
    else (if ltb second.unique first.unique then ℤ.pos 1 else ℤ.pos 0)

-- `result == 0`
abbrev is_zero : ℤ → Bool
is_zero (ℤ.pos n) = n == 0
is_zero (ℤ.negsuc n) = false

-- `Compare` of two keys that are read.
unfoldable pub compare_ids : Key → Key → ℤ
compare_ids k₁ k₂ =
    let result = compare_by_ts k₁ k₂ in if is_zero result then compare_by_unique k₁ k₂ else result

unfoldable pub compare : List ℕ → List ℕ → ℤ
compare a b = compare_ids (deserialize_id a) (deserialize_id b)
