-- ===== src/Server/Iter/Seek.antt =====
-- Where the iterator of `DbClient::Iter` starts, among the entries of the folder.
use timemachine.Base.{
  ℕ, ◌+◌, ◌*◌, ◌^◌, ◌<◌, ◌≡◌, ◌⊎◌, inl, inr, refl, sym, ap, ◌∙◌, List, [], ◌∷◌, ◌++◌, Bool, true,
  false, All, All-both, Pairwise, lt→ltb, ltb→lt, ltb, arith,
}
use timemachine.Protobuf.Runtime.{IsLong}
use timemachine.Server.Key.{serialize_id}
use timemachine.Server.IdComparator.Order.{order_of, position_of, compare-order_of}
use timemachine.Server.Iter.Range.{Precedes}
use timemachine.Server.Cursor.{Entry, IsEntry, IsLater, IsEarly, is_positive, is_after}

-- The key that is sought, for a timestamp.
abbrev pub target_of : ℕ → List ℕ
target_of bound = serialize_id (record { timestamp = bound; unique = 0 })

is_positive-order_of : (a b : ℕ) → is_positive (order_of a b) ≡ ltb b a
is_positive-order_of a b = ground arith

pub is_after-target_of :
    (bound : ℕ) (entry : Entry)
    → IsLong bound
    → 0 < bound
    → IsEntry entry
    → is_after (target_of bound) entry ≡ ltb (bound * 2 ^ 64) (position_of entry.id)
is_after-target_of bound entry long set (id, stamped) =
    ap is_positive (
      compare-order_of entry.id (record { timestamp = bound; unique = 0 }) id (long, omega arith)
        stamped set)
    ∙ is_positive-order_of (position_of entry.id) (bound * 2 ^ 64 + 0)
    ∙ ap (λ (t : ℕ). ltb t (position_of entry.id)) (omega arith)

-- Either all entries are after the key, or there is a last one that is not.
abbrev pub Divided : List ℕ → List Entry → Type 0
Divided target rows =
    All (IsLater target) rows
    ⊎ ((front : List Entry) × (entry : Entry) × (rest : List Entry) × (rows
          ≡ front ++ (entry ∷ rest))
        × All (IsEarly target) front
        × IsEarly target entry
        × All (IsLater target) rest)

IsLater-next :
    (bound : ℕ) (first entry : Entry)
    → IsLong bound
    → 0 < bound
    → IsEntry first
    → IsLater (target_of bound) first
    → IsEntry entry
    → Precedes first entry
    → IsLater (target_of bound) entry
IsLater-next bound first entry long set v later w p =
    is_after-target_of bound entry long set w
    ∙ lt→ltb (bound * 2 ^ 64) (position_of entry.id) (omega (arith, first_later))
  where
    first_later : bound * 2 ^ 64 < position_of first.id
    first_later =
        ltb→lt (bound * 2 ^ 64) (position_of first.id)
          (sym (is_after-target_of bound first long set v) ∙ later)

pub divide :
    (bound : ℕ) (rows : List Entry)
    → IsLong bound
    → 0 < bound
    → All IsEntry rows
    → Pairwise Precedes rows
    → Divided (target_of bound) rows
divide bound [] long set valid sorted = inl _
divide bound (first ∷ rows) long set (v, vs) (p, ps) =
    add_first (is_after (target_of bound) first) refl (divide bound rows long set vs ps)
  where
    target : List ℕ
    target = target_of bound

    add_first :
        (after : Bool)
        → is_after target first ≡ after
        → Divided target rows
        → Divided target (first ∷ rows)
    add_first true e parts = inl (
      e,
      All-both IsEntry (Precedes first) (IsLater target)
          (λ x w q. IsLater-next bound first x long set v e w q) rows vs p,
    )
    add_first false e (inl all) = inr ([], first, rows, refl, _, e, all)
    add_first false e (inr (front, entry, rest, shape, early, own, later)) =
        inr (first ∷ front, entry, rest, ap (λ t. first ∷ t) shape, (e, early), own, later)
