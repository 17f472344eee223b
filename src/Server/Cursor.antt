-- ===== src/Server/Cursor.antt =====
-- A RocksDB iterator over one folder, as src/DbClient.cpp uses it. RocksDB is no part of the
-- repository: an iterator is known by the entries from its own on, in both directions.
use timemachine.Base.{
  reverse, ℕ, zero, suc, ◌<◌, ◌≡◌, List, [], ◌∷◌, ◌++◌, Bool, true, false, ℤ, All,
}
use timemachine.Server.Key.{Key, IsKey, serialize_id}
use timemachine.Server.IdComparator.{compare}

-- A key and its value.
pub record Entry : Type 0 where
  pub id : Key
  pub value : List ℕ

-- The keys that SaveHandler makes: the timestamp is not 0.
abbrev pub IsEntry : Entry → Type 0
IsEntry entry = IsKey entry.id × (0 < entry.id.timestamp)

abbrev pub is_positive : ℤ → Bool
is_positive (ℤ.pos zero) = false
is_positive (ℤ.pos (suc n)) = true
is_positive (ℤ.negsuc n) = false

-- Whether the comparator puts the entry behind the key.
abbrev pub is_after : List ℕ → Entry → Bool
is_after target entry = is_positive (compare (serialize_id entry.id) target)

abbrev pub IsLater : List ℕ → Entry → Type 0
IsLater target entry = is_after target entry ≡ true

abbrev pub IsEarly : List ℕ → Entry → Type 0
IsEarly target entry = is_after target entry ≡ false

-- `ahead` holds the entries from the iterator's own on in the comparator's order, `behind` those in
-- the opposite order. `Valid` is that there is an own entry. `SeekForPrev` finds the last entry that is
-- not after a key, where those that are not stand in front of those that are.
pub record Cursors (rows : List Entry) : Type 1 where
  pub Cursor : Type 0
  pub seek_to_first : Cursor
  pub seek_to_last : Cursor
  pub seek_for_prev : List ℕ → Cursor
  pub next : Cursor → Cursor
  pub prev : Cursor → Cursor
  pub is_valid : Cursor → Bool
  pub key : Cursor → List ℕ
  pub value : Cursor → List ℕ
  pub ahead : Cursor → List Entry
  pub behind : Cursor → List Entry
  pub ahead-seek_to_first : ahead seek_to_first ≡ rows
  pub behind-seek_to_last : behind seek_to_last ≡ reverse rows
  pub seek_for_prev-before :
      (target : List ℕ) → All (IsLater target) rows → is_valid (seek_for_prev target) ≡ false
  pub seek_for_prev-between :
      (target : List ℕ) (front : List Entry) (entry : Entry) (rest : List Entry)
      → rows ≡ front ++ (entry ∷ rest)
      → All (IsEarly target) front
      → IsEarly target entry
      → All (IsLater target) rest
      → (ahead (seek_for_prev target) ≡ entry ∷ rest)
        × (behind (seek_for_prev target) ≡ entry ∷ reverse front)
  pub no_ahead : (c : Cursor) → ahead c ≡ [] → is_valid c ≡ false
  pub no_behind : (c : Cursor) → behind c ≡ [] → is_valid c ≡ false
  pub own_ahead :
      (c : Cursor) (entry : Entry) (entries : List Entry)
      → ahead c ≡ entry ∷ entries
      → (is_valid c ≡ true)
        × (key c ≡ serialize_id entry.id)
        × (value c ≡ entry.value)
        × (ahead (next c) ≡ entries)
  pub own_behind :
      (c : Cursor) (entry : Entry) (entries : List Entry)
      → behind c ≡ entry ∷ entries
      → (is_valid c ≡ true)
        × (key c ≡ serialize_id entry.id)
        × (value c ≡ entry.value)
        × (behind (prev c) ≡ entries)
