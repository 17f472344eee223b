-- ===== src/Server/Save.antt =====
-- SaveHandler::handleRequest of src/handlers/SaveHandler.cpp: what it writes to the store and answers.
-- RocksDB and the encoding of protobuf's `Data` are no part of the repository.
pub mod Stored
use timemachine.Base.{ℕ, ◌<◌, ◌≡◌, ◌≢◌, List, [], ◌∷◌, ◌++◌, Bool, true, All}
use timemachine.Server.Key.{Key, IsKey, serialize_id}
use timemachine.Server.Cursor.{Entry, Cursors}
use timemachine.Server.Iter.Range.{IsSorted}
use timemachine.Server.GenerateId.{generate_id}

-- The element stands in the list.
abbrev pub Among : {A : Type 0} → A → List A → Type 0
Among {A} x xs = (front : List A) × (rest : List A) × (xs ≡ front ++ (x ∷ rest))

-- `SerializeAsString` and `ParseFromString` of a `Data` with its ID and its `data`.
pub record DataFormat : Type 0 where
  pub write : Key → List ℕ → List ℕ
  pub body_of : List ℕ → List ℕ
  pub body_of-write : (id : Key) (body : List ℕ) → body_of (write id body) ≡ body

-- A folder of RocksDB. `put` returns whether the status is ok. Where it is, the entry is there, and in
-- its place in the order; every entry is the one put or was there before.
pub record Database : Type 1 where
  pub State : Type 0
  pub rows : State → List Entry
  pub cursors : (s : State) → Cursors (rows s)
  pub put : List ℕ → List ℕ → State → Bool × State
  pub put-Among :
      (s : State) (id : Key) (value : List ℕ)
      → IsKey id
      → (put (serialize_id id) value s).0 ≡ true
      → Among (record { id = id; value = value }) (rows (put (serialize_id id) value s).1)
  pub put-IsSorted :
      (s : State) (id : Key) (value : List ℕ)
      → IsKey id
      → 0 < id.timestamp
      → IsSorted (rows s)
      → IsSorted (rows (put (serialize_id id) value s).1)
  pub put-All :
      (s : State) (id : Key) (value : List ℕ) (P : Entry → Type 0)
      → IsKey id
      → P (record { id = id; value = value })
      → All P (rows s)
      → All P (rows (put (serialize_id id) value s).1)

-- The JSON of the answer, and the status that is set.
pub record SaveResponse : Type 0 where
  pub ts : ℕ
  pub uniq : ℕ
  pub status : ℕ

module _ (F : DataFormat) (B : Database) where
  -- The folder, and `lastUnique` of it.
  pub record SaveFolder : Type 0 where
    pub state : B.State
    pub last_unique : ℕ

  -- The status is the same whether `putStatus` is ok or not.
  unfoldable pub handle_save : ℕ → ℕ → List ℕ → SaveFolder → SaveResponse × SaveFolder
  handle_save now timestamp body folder =
      let (id, next_unique) = generate_id now timestamp folder.last_unique in
      let (stored, state) = B.put (serialize_id id) (F.write id body) folder.state in
      (
        record { ts = id.timestamp; uniq = id.unique; status = 200 },
        record { state = state; last_unique = next_unique },
      )
