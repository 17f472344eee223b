-- ===== src/Server/GenerateId/Keys.antt =====
-- Which IDs of `GenerateId` of src/DbClient.cpp differ, and from which entries.
use timemachine.Base.{
  ℕ, suc, ◌+◌, ◌%◌, ◌^◌, ◌<◌, ◌≤◌, ◌≡◌, ◌≢◌, ap, ap₂, ◌∙◌, List, [], ◌∷◌, reverse, All, All-imp,
  Pairwise, length, arith, ◌==◌, if◌then◌else◌,
}
use timemachine.Protobuf.Runtime.{IsLong}
use timemachine.Server.Key.{Key, deserialize_id, deserialize_id-serialize_id}
use timemachine.Server.Cursor.{Entry, IsEntry, Cursors}
use timemachine.Server.Iter.{plus}
use timemachine.Server.GenerateId.{get_unique_range, open_folder, generate_id, generate_ids}

-- The unique number is one of the `n` numbers from `u` on, as 64 bits.
abbrev IsFrom : ℕ → ℕ → Key → Type 0
IsFrom u n id = (k : ℕ) × (k < n) × (id.unique ≡ (u + k) % 2 ^ 64)

generate_ids-IsFrom :
    (calls : List (ℕ × ℕ)) (u : ℕ) → IsLong u → All (IsFrom u (length calls)) (generate_ids calls u)
unfolding generate_ids generate_id
generate_ids-IsFrom [] u long = _
generate_ids-IsFrom ((now, ts) ∷ calls) u long = (
  (0, omega arith, omega arith),
  All-imp (IsFrom (plus u 1) (length calls)) (IsFrom u (suc (length calls)))
      (λ id (k, below, eq). (suc k, omega arith, omega arith)) (generate_ids calls (plus u 1))
      (unfold generate_ids generate_id in generate_ids-IsFrom calls (plus u 1) (omega arith)),
)

-- No two of the IDs that are generated for a folder since it was opened, at most 2 ^ 64, have the same
-- unique number, whatever the clock and the timestamps that the callers give: the counter may wrap.
pub generate_ids-distinct :
    (calls : List (ℕ × ℕ)) (last_unique : ℕ)
    → IsLong last_unique
    → length calls ≤ 2 ^ 64
    → Pairwise (λ a b. a.unique ≢ b.unique) (generate_ids calls last_unique)
unfolding generate_ids generate_id
generate_ids-distinct [] u long room = _
generate_ids-distinct ((now, ts) ∷ calls) u long room = (
  All-imp (IsFrom (plus u 1) (length calls)) (λ id. u ≢ id.unique)
      (λ id (k, below, eq) same. omega arith) (generate_ids calls (plus u 1))
      (generate_ids-IsFrom calls (plus u 1) (omega arith)),
  unfold generate_ids generate_id in
      generate_ids-distinct calls (plus u 1) (omega arith) (omega arith),
)

-- A folder that is opened again gives the number of its last entry once more: the first ID generated
-- with the timestamp of the last entry is the key of that entry, so that what is saved under it takes
-- the entry's place. The entry has a timestamp, and its numbers fit in 64 bits.
pub generate_id-reopened :
    (rows : List Entry) (C : Cursors rows) (last : Entry) (before : List Entry) (now : ℕ)
    → reverse rows ≡ last ∷ before
    → IsEntry last
    → (generate_id now last.id.timestamp (open_folder C)).0 ≡ last.id
unfolding generate_id open_folder get_unique_range
generate_id-reopened rows C last before now shape (id, stamped) =
    let (there, key, value, rest) =
      C.own_behind C.seek_to_last last before (C.behind-seek_to_last ∙ shape) in
    ap₂ (λ (t u : ℕ). record { timestamp = t; unique = u }) (given last.id.timestamp now stamped)
      (ap (λ b. if b then (deserialize_id (C.key C.seek_to_last)).unique else 0) there
        ∙ ap (λ bytes. (deserialize_id bytes).unique) key
        ∙ ap (λ i. i.unique) (deserialize_id-serialize_id last.id id))
  where
    given : (ts now : ℕ) → 0 < ts → (if ts == 0 then now else ts) ≡ ts
    given ts now set = ground arith
