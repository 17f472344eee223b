-- ===== src/Server/Subsampling/Period.antt =====
-- The range of numbers that `GetUniqueRangeForTS` of src/DbClient.cpp finds for a period.
use timemachine.Base.{
  ℕ, ◌≤◌, ◌<◌, ◌≡◌, sym, ap, ap₂, subst, ◌∙◌, List, ◌∷◌, ◌++◌, append_assoc, false, All, All-imp,
  All-append, ◌&&◌, ◌==◌, All-both, All-append_parts, if◌then◌else◌, arith,
}
use timemachine.Protobuf.Runtime.{IsLong}
use timemachine.Server.Key.{IsKey, deserialize_id, deserialize_id-serialize_id}
use timemachine.Server.IdComparator.{compare_ids, compare_by_ts, compare_by_unique}
use timemachine.Server.IdComparator.Order.{compare-serialize_id}
use timemachine.Server.Cursor.{Entry, IsEntry, IsLater, IsEarly, is_positive, Cursors}
use timemachine.Server.Iter.Seek.{is_after-target_of}
use timemachine.Server.GenerateId.{unique_at, get_unique_range}
use timemachine.Server.Subsampling.{
  key_of, get_unique_range_for_ts, Store, SubsampleRequest, range_of,
}

-- An entry whose timestamp is before the bound, and one that is not and has a number.
abbrev pub IsEarlier : ℕ → Entry → Type 0
IsEarlier bound entry = entry.id.timestamp < bound

abbrev pub IsSince : ℕ → Entry → Type 0
IsSince bound entry = (bound ≤ entry.id.timestamp) × (0 < entry.id.unique)

module _ (bound : ℕ) (long : IsLong bound) (set : 0 < bound) where
  IsEarlier-IsEarly :
      (entry : Entry) → IsEntry entry → IsEarlier bound entry → IsEarly (key_of bound) entry
  IsEarlier-IsEarly entry valid early =
      is_after-target_of bound entry long set valid ∙ ground (arith, valid)

  IsSince-IsLater :
      (entry : Entry) → IsEntry entry → IsSince bound entry → IsLater (key_of bound) entry
  IsSince-IsLater entry valid since =
      is_after-target_of bound entry long set valid ∙ ground (arith, since)

-- Without a timestamp, keys are compared by their numbers, and that of the key is 0.
IsLater-no_timestamp :
    (entry : Entry) → IsEntry entry → 0 < entry.id.unique → IsLater (key_of 0) entry
unfolding compare_ids compare_by_ts compare_by_unique
IsLater-no_timestamp entry (id, stamped) numbered =
    ap is_positive (
      compare-serialize_id entry.id (record { timestamp = 0; unique = 0 }) id
        (omega arith, omega arith))
    ∙ ground arith

module _ {rows : List Entry} (C : Cursors rows) where
  unique_at-own :
      (c : C.Cursor) (entry : Entry) (entries : List Entry)
      → IsKey entry.id
      → C.ahead c ≡ entry ∷ entries
      → unique_at C c ≡ entry.id.unique
  unique_at-own c entry entries id at =
      let (valid, key, _, _) = C.own_ahead c entry entries at in
      ap (λ b. if b then (deserialize_id (C.key c)).unique else 0) valid
      ∙ ap (λ k. (deserialize_id k).unique) key
      ∙ ap (λ i. i.unique) (deserialize_id-serialize_id entry.id id)

  unique_at-last_before :
      (bound : ℕ) (front : List Entry) (last : Entry) (rest : List Entry)
      → IsLong bound
      → 0 < bound
      → All IsEntry rows
      → rows ≡ front ++ (last ∷ rest)
      → All (IsEarlier bound) front
      → IsEarlier bound last
      → All (IsSince bound) rest
      → unique_at C (C.seek_for_prev (key_of bound)) ≡ last.id.unique
  unique_at-last_before bound front last rest long set valid shape early own since =
      unique_at-own (C.seek_for_prev (key_of bound)) last rest entries.1.0.0
        (C.seek_for_prev-between (key_of bound) front last rest shape
          (All-both IsEntry (IsEarlier bound) (IsEarly (key_of bound))
            (IsEarlier-IsEarly bound long set) front entries.0 early)
          (IsEarlier-IsEarly bound long set last entries.1.0 own)
          (All-both IsEntry (IsSince bound) (IsLater (key_of bound))
            (IsSince-IsLater bound long set) rest entries.1.1 since)).0
    where
      entries : All IsEntry front × All IsEntry (last ∷ rest)
      entries = All-append_parts IsEntry front (last ∷ rest) (subst (All IsEntry) shape valid)

  -- The range of numbers that `GetUniqueRangeForTS` finds for a period starts at the number of the
  -- last entry before the period, and ends at that of the last entry before the period's end: if
  -- there are such entries, the folder has first the entries before the period, then those in it,
  -- then the others, the period does not end before it starts, the timestamps of the entries and of
  -- the period are not 0 and fit in 64 bits, as do the numbers of the entries, and those since the
  -- start are not 0.
  pub get_unique_range_for_ts_lem :
      (from till : ℕ) (front : List Entry) (before : Entry) (inside : List Entry) (last : Entry)
      (rest : List Entry)
      → IsLong from
      → IsLong till
      → 0 < from
      → from ≤ till
      → All IsEntry rows
      → rows ≡ front ++ (before ∷ (inside ++ (last ∷ rest)))
      → All (IsEarlier from) front
      → IsEarlier from before
      → All (IsSince from) (inside ++ (last ∷ rest))
      → All (IsEarlier till) inside
      → IsEarlier till last
      → All (IsSince till) rest
      → get_unique_range_for_ts C from till
        ≡ record { from = before.id.unique; till = last.id.unique }
  unfolding get_unique_range_for_ts
  get_unique_range_for_ts_lem from till front before inside last rest long long' set ordered valid
        shape early own since early_inside own' since' =
      ap₂ (λ (a b : ℕ). record { from = a; till = b })
        (unique_at-last_before from front before (inside ++ (last ∷ rest)) long set valid shape
          early own since)
        (unique_at-last_before till (front ++ (before ∷ inside)) last rest long' (omega arith) valid
          (shape ∙ sym (append_assoc front (before ∷ inside) (last ∷ rest)))
          (All-append (IsEarlier till) front (before ∷ inside)
            (All-imp (IsEarlier from) (IsEarlier till) (λ e h. omega (arith, ordered)) front early)
            (omega (arith, own, ordered), early_inside))
          own' since')

-- Of a period without an end SubsamplingHandler takes the numbers up to 0, and not up to the last: if
-- its start is not 0, the timestamps of the entries and their numbers are not 0 and fit in 64 bits.
pub range_of-unended :
    (folder : Store) (request : SubsampleRequest)
    → 0 < request.from
    → request.till ≡ 0
    → All IsEntry folder.rows
    → All (λ e. 0 < e.id.unique) folder.rows
    → (range_of folder request).till ≡ 0
unfolding range_of get_unique_range_for_ts
range_of-unended folder request started unended valid numbered =
    ap
      (λ b.
        (if b
          then get_unique_range folder.cursors
          else get_unique_range_for_ts folder.cursors request.from request.till).till)
      (not_all request.from request.till started)
    ∙ ap (λ (t : ℕ). unique_at folder.cursors (folder.cursors.seek_for_prev (key_of t))) unended
    ∙ ap
        (λ b.
          if b
          then (deserialize_id
              (folder.cursors.key (folder.cursors.seek_for_prev (key_of 0)))).unique
          else 0)
        (folder.cursors.seek_for_prev-before (key_of 0) (
          All-both IsEntry (λ e. 0 < e.id.unique) (IsLater (key_of 0)) IsLater-no_timestamp
            folder.rows valid numbered))
  where
    not_all : (from till : ℕ) → 0 < from → ((from == 0) && (till == 0)) ≡ false
    not_all from till h = ground arith
