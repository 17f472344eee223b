-- ===== src/Server/Key.antt =====
-- The keys of the store: `ID` of the protocol, and its 16 bytes, by `SerializeID` and `DeserializeID`
-- of src/utils/RepositoryUtils.cpp. `memcpy` of an `unsigned long` is that of a machine with 64 bits
-- and the lowest byte first.
use timemachine.Base.{ℕ, ◌+◌, ◌*◌, ◌/◌, ◌%◌, ◌^◌, ◌≡◌, ap₂, List, [], ◌∷◌, ◌++◌, drop, arith}
use timemachine.Protobuf.Runtime.{IsLong}
use timemachine.Index.Bytes.{byte_at}

pub record Key : Type 0 where
  pub timestamp : ℕ
  pub unique : ℕ

-- The numbers are `unsigned long`s.
abbrev pub IsKey : Key → Type 0
IsKey id = IsLong id.timestamp × IsLong id.unique

-- The eight bytes of a number in memory.
abbrev le64 : ℕ → List ℕ
le64 n =
    (n % 256)
    ∷ (n / 2 ^ 8 % 256)
    ∷ (n / 2 ^ 16 % 256)
    ∷ (n / 2 ^ 24 % 256)
    ∷ (n / 2 ^ 32 % 256)
    ∷ (n / 2 ^ 40 % 256)
    ∷ (n / 2 ^ 48 % 256)
    ∷ (n / 2 ^ 56 % 256)
    ∷ []

-- The number whose bytes start the list.
abbrev from_le64 : List ℕ → ℕ
from_le64 bytes =
    byte_at bytes 0
    + byte_at bytes 1 * 2 ^ 8
    + byte_at bytes 2 * 2 ^ 16
    + byte_at bytes 3 * 2 ^ 24
    + byte_at bytes 4 * 2 ^ 32
    + byte_at bytes 5 * 2 ^ 40
    + byte_at bytes 6 * 2 ^ 48
    + byte_at bytes 7 * 2 ^ 56

unfoldable pub serialize_id : Key → List ℕ
serialize_id id = le64 id.timestamp ++ le64 id.unique

unfoldable pub deserialize_id : List ℕ → Key
deserialize_id bytes = record { timestamp = from_le64 bytes; unique = from_le64 (drop 8 bytes) }

from_le64-le64 : (n : ℕ) (rest : List ℕ) → IsLong n → from_le64 (le64 n ++ rest) ≡ n
from_le64-le64 n rest h = omega arith

-- `DeserializeID` of the 16 bytes of an ID is the ID, if its numbers fit in 64 bits.
pub deserialize_id-serialize_id : (id : Key) → IsKey id → deserialize_id (serialize_id id) ≡ id
unfolding deserialize_id serialize_id
deserialize_id-serialize_id id (t, u) =
    ap₂ (λ (a b : ℕ). record { timestamp = a; unique = b })
      (from_le64-le64 id.timestamp (le64 id.unique) t) (from_le64-le64 id.unique [] u)
