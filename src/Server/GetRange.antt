-- ===== src/Server/GetRange.antt =====
-- The bytes that GetRangeHandler::handleRequest of src/handlers/GetRangeHandler.cpp sends for each row.
-- `Poco::BinaryWriter` in network byte order is no part of the repository.
pub mod Client
pub mod Handler
pub mod Limits
pub mod Answer
pub mod Size
use timemachine.Base.{
  ℕ, ◌+◌, ◌-◌, ◌%◌, ltb, if◌then◌else◌, ◌^◌, ◌<◌, ◌≡◌, List, [], ◌∷◌, ◌++◌, length,
}
use timemachine.Protobuf.Runtime.{IsLong}
use timemachine.Index.Bytes.Laws.{be32}
use timemachine.Index.TsRecords.{be64}

-- `br << x` for a `long` and for an `int` that is not negative.
pub record BinaryWriter : Type 0 where
  pub put_long : ℕ → List ℕ
  pub put_int : ℕ → List ℕ
  pub put_long_lem : (n : ℕ) → IsLong n → put_long n ≡ be64 n
  pub put_int_lem : (n : ℕ) → n < 2 ^ 31 → put_int n ≡ be32 n

-- A key of the store, and the data under it. The `unsigned long`s are cast to `long`, which keeps
-- their 64 bits.
pub record Row : Type 0 where
  pub timestamp : ℕ
  pub unique : ℕ
  pub body : List ℕ

-- `int size_ = body.size()` holds the size if it is below 2 ^ 31.
abbrev pub IsRow : Row → Type 0
IsRow row = IsLong row.timestamp × IsLong row.unique × (length row.body < 2 ^ 31)

-- `int size_ = body.size()`, where it is added to an `unsigned long`.
abbrev pub size_as_long : ℕ → ℕ
size_as_long size =
    let size_ = size % 2 ^ 32 in if ltb size_ (2 ^ 31) then size_ else size_ + (2 ^ 64 - 2 ^ 32)

module _ (W : BinaryWriter) where
  -- `br << ts_ << unique_ << size_; ostr << body;`
  unfoldable pub send_row : Row → List ℕ
  send_row row =
      W.put_long row.timestamp
      ++ (W.put_long row.unique ++ (W.put_int (length row.body) ++ row.body))

  -- What the callback returns, the bytes sent: `size_` is an `int`, and the sum an `unsigned long`.
  unfoldable pub sent_bytes : Row → ℕ
  sent_bytes row = (size_as_long (length row.body) + 8 + 8 + 4) % 2 ^ 64

  -- The rows that `Iter` finds, one after the other.
  unfoldable pub send_rows : List Row → List ℕ
  send_rows [] = []
  send_rows (row ∷ rows) = send_row row ++ send_rows rows
