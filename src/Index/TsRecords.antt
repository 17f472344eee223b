-- ===== src/Index/TsRecords.antt =====
-- `decodeTsRecord` of tsclient/recstore-ts/src/index.ts. The package `bytebuffer` is no part of the
-- repository: it is a record of operations with the behaviour that its documentation gives.
pub mod Laws
pub mod Total
use timemachine.Base.{
  ℕ, zero, suc, ◌+◌, ◌-◌, ◌/◌, ◌%◌, ◌^◌, ◌<◌, ◌≤◌, ◌≡◌, List, [], ◌∷◌, ◌++◌, ℤ, Option, none, some,
  Bool, true, false, ◌||◌, length, drop, ltb, if◌then◌else◌,
}
use timemachine.JsObject.{get_key, set_key}
use timemachine.Protobuf.Outcome.{Text, Result, ok, throw, stuck, type_error, attempt, ◌>>=◌}
use timemachine.Protobuf.Runtime.{Reader, At, advance, IsLong}
use timemachine.Index.Bytes.Laws.{be32}

-- The eight bytes of a number, the highest first.
abbrev pub be64 : ℕ → List ℕ
be64 n = be32 (n / 2 ^ 32) ++ be32 (n % 2 ^ 32)

-- A ByteBuffer is its bytes up to `limit` and its `offset`: the same record as a reader.
-- `none` is the RangeError of a read past the limit.
pub record ByteBuffers : Type 1 where
  -- JavaScript numbers, as `Long.toNumber` makes them, with `===` and `String`.
  pub Number : Type 0
  pub to_number : ℕ → Number
  pub number_eq : Number → Number → Bool
  pub to_text : Number → Text
  pub wrap : List ℕ → Reader
  pub read_long : Reader → Option (ℕ × Reader)
  pub read_int : Reader → Option (ℤ × Reader)
  pub read_bytes : ℤ → Reader → Option (List ℕ × Reader)
  pub wrap_lem : (bytes : List ℕ) → wrap bytes ≡ record { buf = bytes; pos = 0 }
  pub read_long-be64 :
      (bb : Reader) (n : ℕ) (rest : List ℕ)
      → IsLong n
      → At bb (be64 n ++ rest)
      → read_long bb ≡ some (n, advance bb 8)
  pub read_int-be32 :
      (bb : Reader) (n : ℕ) (rest : List ℕ)
      → n < 2 ^ 31
      → At bb (be32 n ++ rest)
      → read_int bb ≡ some (ℤ.pos n, advance bb 4)
  pub read_bytes-append :
      (bb : Reader) (bytes rest : List ℕ)
      → At bb (bytes ++ rest)
      → read_bytes (ℤ.pos (length bytes)) bb ≡ some (bytes, advance bb (length bytes))
  -- A read that returns stays below the limit, and moves the offset by what it read.
  pub read_long-forward :
      (bb bb' : Reader) (n : ℕ)
      → read_long bb ≡ some (n, bb')
      → (bb'.buf ≡ bb.buf) × (bb'.pos ≡ bb.pos + 8) × (bb'.pos ≤ length bb.buf)
  pub read_int-forward :
      (bb bb' : Reader) (z : ℤ)
      → read_int bb ≡ some (z, bb')
      → (bb'.buf ≡ bb.buf) × (bb'.pos ≡ bb.pos + 4) × (bb'.pos ≤ length bb.buf)
  pub read_bytes-forward :
      (bb bb' : Reader) (z : ℤ) (bytes : List ℕ)
      → read_bytes z bb ≡ some (bytes, bb')
      → (bb'.buf ≡ bb.buf) × (bb.pos ≤ bb'.pos)

module _ (B : ByteBuffers) where
  -- `bytes` is the field `data`.
  pub record Entry : Type 0 where
    pub uid : B.Number
    pub bytes : List ℕ

  pub record TsRecord : Type 0 where
    pub ts : B.Number
    pub entries : List Entry

  -- A Map: the entries that `set` makes and `has` looks for, and the properties that an assignment
  -- `map[key] = value` makes, as on any object.
  pub record JsMap : Type 0 where
    pub entries : List (B.Number × TsRecord)
    pub properties : List (Text × TsRecord)

  -- `new Map()`
  abbrev pub new_map : JsMap
  new_map = record { entries = []; properties = [] }

  -- `map.has(key)`
  abbrev pub map_has : B.Number → List (B.Number × TsRecord) → Bool
  map_has key [] = false
  map_has key ((k, v) ∷ entries) = B.number_eq k key || map_has key entries

  -- `{ts: obj.ts, entries: prev.entries.concat(obj.entries)}`, which throws if `prev` is undefined.
  merge : JsMap → TsRecord → Option TsRecord → Result JsMap
  merge map obj none = throw (type_error [])
  merge map obj (some prev) =
      let merged : TsRecord = record { ts = obj.ts; entries = prev.entries ++ obj.entries } in
      ok (record map { properties = set_key (B.to_text obj.ts) merged map.properties })

  -- The function that is given to `reduce`.
  unfoldable pub group : JsMap → TsRecord → Result JsMap
  unfolding merge
  group map obj =
      if map_has obj.ts map.entries
      then merge map obj (get_key (B.to_text obj.ts) map.properties)
      else ok (record map { properties = set_key (B.to_text obj.ts) obj map.properties })

  -- `records.reduce(…, map)`
  unfoldable pub group_all : JsMap → List TsRecord → Result JsMap
  group_all map [] = ok map
  group_all map (obj ∷ records) = group map obj >>= λ map'. group_all map' records

  -- The body of the `while` loop.
  unfoldable pub read_record : Reader → Result (TsRecord × Reader)
  read_record bb = do
    (ts, bb₁) ← attempt (B.read_long bb)
    (unique, bb₂) ← attempt (B.read_long bb₁)
    (len, bb₃) ← attempt (B.read_int bb₂)
    (bytes, bb₄) ← attempt (B.read_bytes len bb₃)
    let entry : Entry = record { uid = B.to_number unique; bytes = bytes }
    ok (record { ts = B.to_number ts; entries = entry ∷ [] }, bb₄)

  -- `while (bb.offset < bb.limit)`. A round takes 20 bytes or more, so fewer rounds than there are
  -- bytes are made.
  unfoldable pub read_records : ℕ → List TsRecord → Reader → Result (List TsRecord)
  read_records zero records bb = stuck
  read_records (suc fuel) records bb = elim (ltb bb.pos (length bb.buf)) [
    | true ↦ do (entry, bb') ← read_record bb; read_records fuel (records ++ (entry ∷ [])) bb'
    | false ↦ ok records
  ]

  -- The map is built and dropped: what is returned are the records.
  unfoldable pub decode_ts_record : List ℕ → Result (List TsRecord)
  decode_ts_record bytes = do
    records ← read_records (suc (length bytes)) [] (B.wrap bytes)
    result_map ← group_all new_map records
    ok records
