-- ===== src/Server/IdComparator/Order.antt =====
-- The order of the keys, by src/IDComparator.cpp.
use timemachine.Base.{ℕ, ◌+◌, ◌*◌, ◌^◌, ◌<◌, ◌≡◌, ap₂, ◌∙◌, ℤ, ltb, if◌then◌else◌, arith}
use timemachine.Server.Key.{Key, IsKey, serialize_id, deserialize_id-serialize_id}
use timemachine.Server.IdComparator.{compare_by_ts, compare_by_unique, compare_ids, compare}

-- The order of numbers, as an `int`.
abbrev pub order_of : ℕ → ℕ → ℤ
order_of a b = if ltb a b then ℤ.negsuc 0 else (if ltb b a then ℤ.pos 1 else ℤ.pos 0)

-- A key as one number of 128 bits, with the timestamp in front.
abbrev pub position_of : Key → ℕ
position_of id = id.timestamp * 2 ^ 64 + id.unique

pub compare-serialize_id :
    (a b : Key) → IsKey a → IsKey b → compare (serialize_id a) (serialize_id b) ≡ compare_ids a b
unfolding compare
compare-serialize_id a b p q =
    ap₂ compare_ids (deserialize_id-serialize_id a p) (deserialize_id-serialize_id b q)

compare_ids-order_of :
    (a b : Key)
    → IsKey a
    → IsKey b
    → 0 < a.timestamp
    → 0 < b.timestamp
    → compare_ids a b ≡ order_of (position_of a) (position_of b)
unfolding compare_ids compare_by_ts compare_by_unique
compare_ids-order_of a b (t, u) (t', u') p q = ground arith

-- The comparator on the bytes of two IDs orders them as the numbers of 128 bits with the timestamp in
-- front and the unique number behind it, if the numbers fit in 64 bits and neither timestamp is 0.
pub compare-order_of :
    (a b : Key)
    → IsKey a
    → IsKey b
    → 0 < a.timestamp
    → 0 < b.timestamp
    → compare (serialize_id a) (serialize_id b) ≡ order_of (position_of a) (position_of b)
compare-order_of a b p q s t = compare-serialize_id a b p q ∙ compare_ids-order_of a b p q s t

-- A key without a timestamp makes a cycle: where a later timestamp has the smaller unique number,
-- and the key without one a number between the two, each of the three keys is less than the next.
pub compare_cycle :
    (early late bare : Key)
    → IsKey early
    → IsKey late
    → IsKey bare
    → bare.timestamp ≡ 0
    → 0 < early.timestamp
    → early.timestamp < late.timestamp
    → late.unique < bare.unique
    → bare.unique < early.unique
    → (compare (serialize_id late) (serialize_id bare) ≡ ℤ.negsuc 0)
      × (compare (serialize_id bare) (serialize_id early) ≡ ℤ.negsuc 0)
      × (compare (serialize_id early) (serialize_id late) ≡ ℤ.negsuc 0)
unfolding compare_ids compare_by_ts compare_by_unique
compare_cycle early late bare e l b z p q u v = (
  compare-serialize_id late bare l b ∙ bare_right late bare z u,
  compare-serialize_id bare early b e ∙ bare_left bare early z v,
  compare-serialize_id early late e l ∙ by_ts early late p q,
)
  where
    bare_right : (a b : Key) → b.timestamp ≡ 0 → a.unique < b.unique → compare_ids a b ≡ ℤ.negsuc 0
    bare_right a b z u = ground arith

    bare_left : (a b : Key) → a.timestamp ≡ 0 → a.unique < b.unique → compare_ids a b ≡ ℤ.negsuc 0
    bare_left a b z u = ground arith

    by_ts : (a b : Key) → 0 < a.timestamp → a.timestamp < b.timestamp → compare_ids a b ≡ ℤ.negsuc 0
    by_ts a b p q = ground arith
