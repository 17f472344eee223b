-- ===== src/Server/Iter/Backward.antt =====
-- What `DbClient::Iter` of src/DbClient.cpp gives to its callback in a scan in reverse.
use timemachine.Base.{
  ℕ, ◌*◌, ◌^◌, ◌<◌, ◌≤◌, ◌≡◌, ◌⊎◌, inl, inr, sym, ap, ◌∙◌, List, [], ◌∷◌, reverse, true, some,
  length, All, All-append_parts, reverse-cons, All-reverse, Pairwise, Pairwise-reverse, select,
  ◌==◌, Bool-cases, arith, subst,
}
use timemachine.Protobuf.Runtime.{IsLong}
use timemachine.Server.Key.{Key}
use timemachine.Server.IdComparator.Order.{position_of}
use timemachine.Server.Cursor.{Entry, IsEntry, Cursors, IsLater}
use timemachine.Server.Iter.{RangeRequest, iter, seek}
use timemachine.Server.Iter.Scan.{deliver}
use timemachine.Server.Iter.Range.{IsSorted, Precedes, IsSorted-Precedes}
use timemachine.Server.Iter.Seek.{target_of}
use timemachine.Server.Iter.Newer.{
  is_newer, in_reverse_range, is_behind, not_after_below, select-IsWithin, unset-IsWithin,
  select-found,
}
use timemachine.Server.Iter.Behind.{Behind, seek-Behind, iter-behind}

first_of_reverse :
    (P : Entry → Type 0) (first : Entry) (rest : List Entry)
    → All P (reverse (first ∷ rest))
    → P first
first_of_reverse P first rest h =
    (All-append_parts P (reverse rest) (first ∷ []) (subst (All P) (reverse-cons first rest) h)).1.0

module _ {S D : Type 0} (parse : List ℕ → D) (fn : S → Key → D → S × ℕ) (rows : List Entry)
    (C : Cursors rows) where
  not-All_after :
      (till : ℕ) (first : Entry) (rest : List Entry)
      → IsSorted rows
      → rows ≡ first ∷ rest
      → IsLong till
      → (till ≡ 0) ⊎ (position_of first.id ≤ till * 2 ^ 64)
      → All (IsLater (target_of till)) (reverse rows)
      → (till == 0) ≡ true
  not-All_after till first rest sorted shape long (inl zero) after = ground arith
  not-All_after till first rest sorted shape long (inr below) after =
      elim (Bool-cases (till == 0)) [
        | inl unset ↦ unset
        | inr set ↦
            let first_after =
              first_of_reverse (IsLater (target_of till)) first rest
                (subst (λ es. All (IsLater (target_of till)) (reverse es)) shape after) in
            let later =
              is_behind till first set long (subst (All IsEntry) shape sorted.0).0 first_after in
            absurd (omega arith)
      ]

  -- What the upper bound leaves of all entries, if it is kept.
  chosen :
      (request : RangeRequest) (c : C.Cursor) (first : Entry) (rest : List Entry)
      → IsSorted rows
      → rows ≡ first ∷ rest
      → IsLong request.till
      → (request.till ≡ 0) ⊎ (position_of first.id ≤ request.till * 2 ^ 64)
      → Behind parse fn rows C request c
      → select (is_newer request.from) (C.behind c)
        ≡ select (in_reverse_range request.from request.till) (reverse rows)
  chosen request c first rest sorted shape long low (inl (at, why)) =
      ap (select (is_newer request.from)) at
      ∙ select-IsWithin request.from request.till (reverse rows) (
          unset-IsWithin request.till (reverse rows) (unset why)
            (All-reverse IsEntry rows sorted.0))
    where
      unset :
          ((request.till == 0) ≡ true) ⊎ All (IsLater (target_of request.till)) (reverse rows)
          → (request.till == 0) ≡ true
      unset (inl e) = e
      unset (inr after) = not-All_after request.till first rest sorted shape long low after
  chosen request c first rest sorted shape long low
        (inr (front, entry, more, at, all, after, not_after, set)) =
      ap (select (is_newer request.from)) at
      ∙ select-found request.from request.till front entry more set long
          (subst (All IsEntry) all (All-reverse IsEntry rows sorted.0))
          (subst (Pairwise (λ a b. Precedes b a)) all
            (Pairwise-reverse Precedes rows (IsSorted-Precedes rows sorted)))
          after not_after
      ∙ ap (select (in_reverse_range request.from request.till)) (sym all)

  -- `Iter` in reverse calls the callback on the entries after the first timestamp of the request and
  -- not behind the key of its last timestamp and the unique number 0, the last first, up to the limits of
  -- the request: if the entries are sorted by the comparator and carry a timestamp each, the numbers
  -- fit in 64 bits, the loop has fuel for each entry and one round more, and either there is no last
  -- timestamp or the first entry is not behind that key.
  pub iter-reverse :
      (fuel : ℕ) (request : RangeRequest) (s : S) (first : Entry) (rest : List Entry)
      → IsSorted rows
      → rows ≡ first ∷ rest
      → request.reverse ≡ true
      → IsLong request.till
      → (request.till ≡ 0) ⊎ (position_of first.id ≤ request.till * 2 ^ 64)
      → length rows < fuel
      → iter parse fn rows C fuel request s
        ≡ some (
            deliver parse fn request
              (select (in_reverse_range request.from request.till) (reverse rows))
              s
              0
              0)
  iter-reverse fuel request s first rest sorted shape backward long low room =
      subst
        (λ b.
          iter parse fn rows C fuel (record request { reverse = b }) s
          ≡ some (
              deliver parse fn request
                (select (in_reverse_range request.from request.till) (reverse rows)) s 0 0))
        (sym backward)
        (iter-behind parse fn rows C fuel request s sorted long room
          ∙ ap (λ es. some (deliver parse fn request es s 0 0))
              (chosen request (seek parse fn rows C (record request { reverse = true })) first rest
                sorted shape long low (seek-Behind parse fn rows C request sorted long)))

  -- Where every entry is behind the key, the scan starts at the last entry.
  All-behind :
      (request : RangeRequest) (c : C.Cursor)
      → IsSorted rows
      → IsLong request.till
      → All (λ e. request.till * 2 ^ 64 < position_of e.id) rows
      → Behind parse fn rows C request c
      → C.behind c ≡ reverse rows
  All-behind request c sorted long above (inl (at, why)) = at
  All-behind request c sorted long above
        (inr (front, entry, more, at, all, after, not_after, set)) =
      let v =
        (All-append_parts IsEntry front (entry ∷ more)
          (subst (All IsEntry) all (All-reverse IsEntry rows sorted.0))).1.0 in
      let later =
        (All-append_parts (λ e. request.till * 2 ^ 64 < position_of e.id) front (entry ∷ more)
          (subst (All (λ e. request.till * 2 ^ 64 < position_of e.id)) all
            (All-reverse (λ e. request.till * 2 ^ 64 < position_of e.id) rows above))).1.0 in
      let low = not_after_below request.till entry set long v not_after in absurd (omega arith)

  -- `Iter` in reverse does not keep the last timestamp of the request where every entry is behind
  -- the key of that timestamp and the unique number 0: it calls the callback on every entry after
  -- the first timestamp of the request, each of them behind that key, the last first, up to the
  -- limits of the request. The entries are sorted by the comparator and carry a timestamp each, the
  -- numbers fit in 64 bits, and the loop has fuel for each entry and one round more.
  pub iter-reverse_beyond :
      (fuel : ℕ) (request : RangeRequest) (s : S)
      → IsSorted rows
      → request.reverse ≡ true
      → IsLong request.till
      → All (λ e. request.till * 2 ^ 64 < position_of e.id) rows
      → length rows < fuel
      → iter parse fn rows C fuel request s
        ≡ some (deliver parse fn request (select (is_newer request.from) (reverse rows)) s 0 0)
  iter-reverse_beyond fuel request s sorted backward long above room =
      subst
        (λ b.
          iter parse fn rows C fuel (record request { reverse = b }) s
          ≡ some (deliver parse fn request (select (is_newer request.from) (reverse rows)) s 0 0))
        (sym backward)
        (iter-behind parse fn rows C fuel request s sorted long room
          ∙ ap (λ es. some (deliver parse fn request (select (is_newer request.from) es) s 0 0))
              (All-behind request (seek parse fn rows C (record request { reverse = true })) sorted
                long above (seek-Behind parse fn rows C request sorted long)))
