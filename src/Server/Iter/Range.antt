-- ===== src/Server/Iter/Range.antt =====
-- The entries of a folder in the order of the comparator, and the loop of `DbClient::Iter` of
-- src/DbClient.cpp from an iterator on.
use timemachine.Base.{
  ℤ, ℕ, ◌<◌, ◌≡◌, sym, ap, ◌∙◌, List, some, length, All, Pairwise, Pairwise-both, select, arith,
}
use timemachine.Server.Key.{Key, serialize_id}
use timemachine.Server.IdComparator.{compare}
use timemachine.Server.IdComparator.Order.{position_of, compare-order_of}
use timemachine.Server.Cursor.{Entry, IsEntry, Cursors}
use timemachine.Server.Iter.{RangeRequest, scan}
use timemachine.Server.Iter.Scan.{deliver, is_inside, Goes, visit-deliver}
use timemachine.Server.Iter.Loop.{scan-visit, upcoming}

-- The entries stand in the comparator's order.
abbrev pub IsBefore : Entry → Entry → Type 0
IsBefore a b = compare (serialize_id a.id) (serialize_id b.id) ≡ ℤ.negsuc 0

abbrev pub IsSorted : List Entry → Type 0
IsSorted rows = All IsEntry rows × Pairwise IsBefore rows

abbrev pub Precedes : Entry → Entry → Type 0
Precedes a b = position_of a.id < position_of b.id

IsBefore-Precedes : (a b : Entry) → IsEntry a → IsEntry b → IsBefore a b → Precedes a b
IsBefore-Precedes a b (id, stamped) (id', stamped') h =
    ground (arith, sym h ∙ compare-order_of a.id b.id id id' stamped stamped')

pub IsSorted-Precedes : (rows : List Entry) → IsSorted rows → Pairwise Precedes rows
IsSorted-Precedes rows (valid, sorted) =
    Pairwise-both IsEntry IsBefore Precedes IsBefore-Precedes rows valid sorted

module _ {S D : Type 0} (parse : List ℕ → D) (fn : S → Key → D → S × ℕ) (rows : List Entry)
    (C : Cursors rows) where
  -- The loop from an iterator on, if the entries ahead of it keep to the range.
  pub scan-deliver :
      (fuel : ℕ) (request : RangeRequest) (entries : List Entry) (c : C.Cursor) (s : S)
      → upcoming parse fn rows C request c ≡ entries
      → All IsEntry entries
      → Pairwise (Goes request) entries
      → length entries < fuel
      → scan parse fn rows C fuel request c s 0 0
        ≡ some (deliver parse fn request (select (is_inside request) entries) s 0 0)
  scan-deliver fuel request entries c s at valid goes room =
      scan-visit parse fn rows C fuel request entries c s 0 0 room valid at
      ∙ ap some (visit-deliver parse fn request entries s 0 0 goes)
