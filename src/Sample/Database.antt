-- ===== src/Sample/Database.antt =====
-- A folder that stores an entry behind all others only, and a format whose bytes are the body.
use timemachine.Base.{
  ℕ, zero, suc, ◌≡◌, refl, sym, ap, subst, List, [], ◌∷◌, ◌++◌, Bool, true, false, ◌&&◌, ℤ, All,
  All-snoc, Pairwise, Pairwise-snoc,
}
use mathlib.Core.Bool.{false≢true}
use timemachine.Server.Key.{Key, IsKey, serialize_id, deserialize_id, deserialize_id-serialize_id}
use timemachine.Server.IdComparator.{compare}
use timemachine.Server.Cursor.{Entry, IsEntry}
use timemachine.Server.Iter.Range.{IsBefore}
use timemachine.Server.Save.{Among, DataFormat, Database}
use timemachine.Sample.Cursors.{cursors}

abbrev pub is_less : ℤ → Bool
is_less (ℤ.pos n) = false
is_less (ℤ.negsuc zero) = true
is_less (ℤ.negsuc (suc n)) = false

is_less-true : (z : ℤ) → is_less z ≡ true → z ≡ ℤ.negsuc 0
is_less-true (ℤ.pos n) h = absurd (false≢true h)
is_less-true (ℤ.negsuc zero) h = refl
is_less-true (ℤ.negsuc (suc n)) h = absurd (false≢true h)

abbrev pub all_before : List ℕ → List Entry → Bool
all_before key [] = true
all_before key (entry ∷ rows) = is_less (compare (serialize_id entry.id) key) && all_before key rows

abbrev pub put : List ℕ → List ℕ → List Entry → Bool × List Entry
put key value rows = elim (all_before key rows) [
  | true ↦ (true, rows ++ (record { id = deserialize_id key; value = value } ∷ []))
  | false ↦ (false, rows)
]

both_true : (a b : Bool) → (a && b) ≡ true → (a ≡ true) × (b ≡ true)
both_true true true h = (refl, refl)
both_true true false h = absurd (false≢true h)
both_true false b h = absurd (false≢true h)

pub all_before-IsBefore :
    (id : Key) (value : List ℕ) (rows : List Entry)
    → all_before (serialize_id id) rows ≡ true
    → All (λ e. IsBefore e (record { id = id; value = value })) rows
all_before-IsBefore id value [] h = _
all_before-IsBefore id value (entry ∷ rows) h =
    let (first, rest) =
      both_true (is_less (compare (serialize_id entry.id) (serialize_id id)))
        (all_before (serialize_id id) rows) h in
    (
      is_less-true (compare (serialize_id entry.id) (serialize_id id)) first,
      all_before-IsBefore id value rows rest,
    )

module _ (id : Key) (value : List ℕ) (valid : IsKey id) where
  abbrev pub entry : Entry
  entry = record { id = id; value = value }

  abbrev pub entry' : Entry
  entry' = record { id = deserialize_id (serialize_id id); value = value }

  entry-same : entry ≡ entry'
  entry-same =
      ap (λ i. record { id = i; value = value }) (sym (deserialize_id-serialize_id id valid))

  -- What holds where the entry is put and where it is not.
  abbrev pub outcome : Bool → List Entry → Bool × List Entry
  outcome b rows = elim b [ true ↦ (true, rows ++ (entry' ∷ [])) | false ↦ (false, rows) ]

  pub outcome-Among :
      (b : Bool) (rows : List Entry) → (outcome b rows).0 ≡ true → Among entry (outcome b rows).1
  outcome-Among true rows h = (rows, [], ap (λ e. rows ++ (e ∷ [])) (sym entry-same))
  outcome-Among false rows h = absurd (false≢true h)

  pub outcome-All :
      (P : Entry → Type 0) (b : Bool) (rows : List Entry)
      → P entry
      → All P rows
      → All P (outcome b rows).1
  outcome-All P true rows p h = All-snoc P rows entry' h (subst P entry-same p)
  outcome-All P false rows p h = h

  pub outcome-Pairwise :
      (b : Bool) (rows : List Entry)
      → (b ≡ true → All (λ e. IsBefore e entry) rows)
      → Pairwise IsBefore rows
      → Pairwise IsBefore (outcome b rows).1
  outcome-Pairwise true rows before h =
      Pairwise-snoc IsBefore rows entry' h
        (subst (λ e'. All (λ e. IsBefore e e') rows) entry-same (before refl))
  outcome-Pairwise false rows before h = h

abbrev pub database : Database
database = record {
  State = List Entry;
  rows = λ s. s;
  cursors = cursors;
  put = put;
  put-Among = λ s id value valid. outcome-Among id value valid (all_before (serialize_id id) s) s;
  put-IsSorted = λ s id value valid stamped (entries, sorted). (
    outcome-All id value valid IsEntry (all_before (serialize_id id) s) s (valid, stamped) entries,
    outcome-Pairwise id value valid (all_before (serialize_id id) s) s
        (all_before-IsBefore id value s) sorted,
  );
  put-All = λ s id value P valid. outcome-All id value valid P (all_before (serialize_id id) s) s;
}

abbrev pub data_format : DataFormat
data_format = record {
  write = λ id body. body;
  body_of = λ value. value;
  body_of-write = λ id body. refl;
}
