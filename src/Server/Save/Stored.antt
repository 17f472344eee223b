-- ===== src/Server/Save/Stored.antt =====
-- SaveHandler and GetRangeHandler of src/handlers one after the other, and the client that reads.
use timemachine.Base.{
  ℕ, ◌^◌, ◌<◌, ◌≤◌, ◌≡◌, ◌⊎◌, inl, inr, refl, sym, ap, subst, ◌∙◌, List, [], ◌∷◌, ◌++◌, map, Bool,
  true, false, some, length, All, select, decide_true, arith,
}
use mathlib.Core.Logic.{ite}
use timemachine.Protobuf.Outcome.{ok}
use timemachine.Protobuf.Runtime.{IsLong}
use timemachine.Index.TsRecords.{ByteBuffers, TsRecord, decode_ts_record}
use timemachine.Index.TsRecords.Laws.{record_of}
use timemachine.Server.Key.{Key, IsKey, serialize_id}
use timemachine.Server.Cursor.{Entry}
use timemachine.Server.Iter.{RangeRequest}
use timemachine.Server.Iter.Range.{IsSorted}
use timemachine.Server.Iter.Forward.{in_range}
use timemachine.Server.GenerateId.{generate_id}
use timemachine.Server.GetRange.{BinaryWriter, Row}
use timemachine.Server.GetRange.Handler
use timemachine.Server.GetRange.Handler.{row_of, Response, handle_request}
use timemachine.Server.GetRange.Limits.{within_limits, within_limits-unset}
use timemachine.Server.GetRange.Answer.{decode_ts_record-handle_request}
use timemachine.Server.Save.{Among, DataFormat, Database, SaveFolder, handle_save}

module _ {A B : Type 0} (f : A → B) (x : A) where
  map-around : (rest l : List A) → map f (l ++ (x ∷ rest)) ≡ map f l ++ (f x ∷ map f rest)
  map-around rest [] = refl
  map-around rest (y ∷ l) = ap (λ t. f y ∷ t) (map-around rest l)

  Among-map : (xs : List A) → Among x xs → Among (f x) (map f xs)
  Among-map xs (front, rest, e) = (map f front, map f rest, ap (map f) e ∙ map-around rest front)

module _ {A : Type 0} (test : A → Bool) (x : A) (passes : test x ≡ true) where
  abbrev kept : Bool → A → List A → List A
  kept b y l = ite (decide_true b) (y ∷ l) l

  kept-append : (b : Bool) (y : A) (l more : List A) → kept b y (l ++ more) ≡ kept b y l ++ more
  kept-append true y l more = refl
  kept-append false y l more = refl

  select-around :
      (rest l : List A) → select test (l ++ (x ∷ rest)) ≡ select test l ++ (x ∷ select test rest)
  select-around rest [] = ap (λ b. kept b x (select test rest)) passes
  select-around rest (y ∷ l) =
      ap (kept (test y) y) (select-around rest l)
      ∙ kept-append (test y) y (select test l) (x ∷ select test rest)

  Among-select : (xs : List A) → Among x xs → Among x (select test xs)
  Among-select xs (front, rest, e) =
      (select test front, select test rest, ap (select test) e ∙ select-around rest front)

in_range-true :
    (from till : ℕ) (entry : Entry)
    → from ≤ entry.id.timestamp
    → (till ≡ 0) ⊎ (entry.id.timestamp ≤ till)
    → in_range from till entry ≡ true
in_range-true from till entry low (inl zero) = ground arith
in_range-true from till entry low (inr high) = ground arith

module _ (F : DataFormat) (B : Database) where
  abbrev pub new_id : ℕ → ℕ → SaveFolder F B → Key
  new_id now timestamp folder = (generate_id now timestamp folder.last_unique).0

  abbrev pub is_stored : ℕ → ℕ → List ℕ → SaveFolder F B → Bool
  is_stored now timestamp body folder =
      let id = new_id now timestamp folder in
      (B.put (serialize_id id) (F.write id body) folder.state).0

  abbrev pub stored_folder : SaveFolder F B → Handler.Folder
  stored_folder folder = record { rows = B.rows folder.state; cursors = B.cursors folder.state }

module _ (W : BinaryWriter) (BB : ByteBuffers) (F : DataFormat) (B : Database) where
  -- What SaveHandler stored is among the records that the client reads of a range, with the timestamp and
  -- the unique number that SaveHandler answered and the body that it was given: if the put succeeds, the
  -- range is forward, has no limits and holds the timestamp, which is not 0, the entries of the folder
  -- are sorted by the comparator and carry a timestamp each, the numbers fit in 64 bits, each body is
  -- shorter than 2 ^ 31 bytes, and the scan has fuel for each entry and one round more.
  pub handle_request-handle_save :
      (fuel now timestamp : ℕ) (body : List ℕ) (folder : SaveFolder F B) (request : RangeRequest)
      → IsKey (new_id F B now timestamp folder)
      → 0 < (new_id F B now timestamp folder).timestamp
      → is_stored F B now timestamp body folder ≡ true
      → IsSorted (B.rows folder.state)
      → All (λ e. length (F.body_of e.value) < 2 ^ 31) (B.rows folder.state)
      → length body < 2 ^ 31
      → request.reverse ≡ false
      → IsLong request.from
      → request.from ≤ (new_id F B now timestamp folder).timestamp
      → (request.till ≡ 0) ⊎ ((new_id F B now timestamp folder).timestamp ≤ request.till)
      → request.maxbytes ≡ 0
      → request.maxmessages ≡ 0
      → length (B.rows (handle_save F B now timestamp body folder).1.state) < fuel
      → (response : Response) × (records : List (TsRecord BB)) × (handle_request W F.body_of fuel
            (some (stored_folder F B (handle_save F B now timestamp body folder).1))
            request
          ≡ some response)
        × (decode_ts_record BB response.body ≡ ok records)
        × Among
            (record_of BB (record {
              timestamp = (handle_save F B now timestamp body folder).0.ts;
              unique = (handle_save F B now timestamp body folder).0.uniq;
              body = body;
            }))
            records
  unfolding handle_save
  handle_request-handle_save fuel now timestamp body folder request valid stamped stored sorted
        short small forward long low high no_bytes no_messages room =
      let (response, answers, status, decodes) =
        decode_ts_record-handle_request W F.body_of BB fuel
          (record { rows = B.rows s'; cursors = B.cursors s' }) request
          (B.put-IsSorted folder.state id value valid stamped sorted)
          (B.put-All folder.state id value (λ e. length (F.body_of e.value) < 2 ^ 31) valid
            (subst (λ b. length b < 2 ^ 31) (sym (F.body_of-write id body)) small) short)
          forward long room in
      (response, map (record_of BB) rows, answers, decodes, there)
    where
      id : Key
      id = new_id F B now timestamp folder

      value : List ℕ
      value = F.write id body

      entry : Entry
      entry = record { id = id; value = value }

      sent : List ℕ → Row
      sent b = record { timestamp = id.timestamp; unique = id.unique; body = b }

      s' : B.State
      s' = (B.put (serialize_id id) value folder.state).1

      found : List Row
      found = map (row_of W F.body_of) (select (in_range request.from request.till) (B.rows s'))

      rows : List Row
      rows = within_limits W request found 0 0

      there :
          Among
            (record_of BB (record { timestamp = id.timestamp; unique = id.unique; body = body }))
            (map (record_of BB) rows)
      there =
          subst (λ b. Among (record_of BB (sent b)) (map (record_of BB) rows))
            (F.body_of-write id body)
            (Among-map (record_of BB) (row_of W F.body_of entry) rows (
              subst (Among (row_of W F.body_of entry))
                (sym (within_limits-unset W request found 0 0 no_bytes no_messages))
                (Among-map (row_of W F.body_of) entry
                  (select (in_range request.from request.till) (B.rows s'))
                  (Among-select (in_range request.from request.till) entry
                    (in_range-true request.from request.till entry low high) (B.rows s')
                    (B.put-Among folder.state id value valid stored)))))
