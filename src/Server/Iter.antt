-- ===== src/Server/Iter.antt =====
-- `DbClient::Iter` of src/DbClient.cpp: it goes through the entries of a folder and gives those of a
-- range to a callback, which returns the number of bytes that it sent.
pub mod Scan
pub mod Loop
pub mod Range
pub mod Forward
pub mod Newer
pub mod Behind
pub mod Backward
pub mod Seek
use timemachine.Base.{
  ℕ, zero, suc, ◌+◌, ◌%◌, ◌^◌, List, Bool, true, false, ◌&&◌, ◌||◌, Option, none, some, ltb, leb,
  ◌==◌, if◌then◌else◌,
}
use timemachine.Server.Key.{Key, serialize_id, deserialize_id}
use timemachine.Server.Cursor.{Entry, Cursors}

-- 0 stands for no bound.
pub record RangeRequest : Type 0 where
  pub from : ℕ
  pub till : ℕ
  pub maxmessages : ℕ
  pub maxbytes : ℕ
  pub reverse : Bool

abbrev pub not : Bool → Bool
not true = false
not false = true

-- What a round of the loop does with an entry: `break`, `continue`, or the call of `fn`.
pub data Decision : Type 0 where
  leave : Decision
  pass : Decision
  send : Decision

-- The guards of the loop in their order.
unfoldable pub decide : RangeRequest → Key → ℕ → ℕ → Decision
decide request key bytes_sent messages_sent =
    if not request.reverse && (not (request.till == 0) && ltb request.till key.timestamp)
    then Decision.leave
    else (if request.reverse && (not (request.from == 0) && leb key.timestamp request.from)
        then Decision.leave
        else (if not request.reverse && ltb key.timestamp request.from
            then Decision.pass
            else (if not (request.maxbytes == 0) && leb request.maxbytes bytes_sent
                then Decision.leave
                else (if not (request.maxmessages == 0) && leb request.maxmessages messages_sent
                    then Decision.leave
                    else Decision.send))))

-- `messagesSend += 1; bytesSend += sent;` on `unsigned long`s.
abbrev pub plus : ℕ → ℕ → ℕ
plus a b = (a + b) % 2 ^ 64

-- `S` is what the callback changes, `D` the protobuf message under a key.
module _ {S D : Type 0} (parse : List ℕ → D) (fn : S → Key → D → S × ℕ) (rows : List Entry)
    (C : Cursors rows) where
  -- Where the iterator starts.
  unfoldable pub seek : RangeRequest → C.Cursor
  seek request =
      if not request.reverse && request.from == 0
      then C.seek_to_first
      else (if request.reverse && request.till == 0
          then C.seek_to_last
          else (let bound = if not request.reverse then request.from else request.till in
              let found =
                C.seek_for_prev (serialize_id (record { timestamp = bound; unique = 0 })) in
              if not (C.is_valid found)
              then (if not request.reverse then C.seek_to_first else C.seek_to_last)
              else found))

  abbrev pub step : RangeRequest → C.Cursor → C.Cursor
  step request c = if request.reverse then C.prev c else C.next c

  -- The loop. The flag `stopIteration` goes to the callback by value and stays false. `none` is that
  -- the fuel is used up.
  unfoldable pub scan : ℕ → RangeRequest → C.Cursor → S → ℕ → ℕ → Option S
  scan zero request c s bytes_sent messages_sent = none
  scan (suc fuel) request c s bytes_sent messages_sent = elim (C.is_valid c) [
    | false ↦ some s
    | true ↦
        let key = deserialize_id (C.key c) in
        elim (decide request key bytes_sent messages_sent) [
          | Decision.leave ↦ some s
          | Decision.pass ↦ scan fuel request (step request c) s bytes_sent messages_sent
          | Decision.send ↦
              let (s', sent) = fn s key (parse (C.value c)) in
              scan fuel request (step request c) s' (plus bytes_sent sent) (plus messages_sent 1)
        ]
  ]

  unfoldable pub iter : ℕ → RangeRequest → S → Option S
  iter fuel request s = scan fuel request (seek request) s 0 0
