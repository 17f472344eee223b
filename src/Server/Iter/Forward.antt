-- ===== src/Server/Iter/Forward.antt =====
-- What `DbClient::Iter` of src/DbClient.cpp gives to its callback in a scan forward.
use timemachine.Base.{
  ℕ, ◌*◌, ◌^◌, ◌<◌, ◌≤◌, ◌≡◌, ◌⊎◌, inl, inr, refl, sym, ap, ◌∙◌, List, ◌∷◌, ◌++◌, Bool, true, false,
  ◌&&◌, ◌||◌, some, length, All, All-imp, All-append_parts, All-both, ltb→le, lt→leb, Pairwise,
  Pairwise-both, Pairwise-middle, Pairwise-append_right, select, select-ext, select-skip, leb, ◌==◌,
  if◌then◌else◌, arith, subst, length-append,
}
use timemachine.Protobuf.Runtime.{IsLong}
use timemachine.Server.Key.{Key}
use timemachine.Server.IdComparator.Order.{position_of}
use timemachine.Server.Cursor.{Entry, IsEntry, Cursors, is_after}
use timemachine.Server.Iter.{RangeRequest, not, iter, seek, scan}
use timemachine.Server.Iter.Scan.{deliver, is_inside, Goes}
use timemachine.Server.Iter.Range.{IsSorted, Precedes, IsSorted-Precedes, scan-deliver}
use timemachine.Server.Iter.Seek.{Divided, divide, target_of, is_after-target_of}

-- From the first timestamp to the last, both in the range.
abbrev pub in_range : ℕ → ℕ → Entry → Bool
in_range from till entry = leb from entry.id.timestamp && (till == 0 || leb entry.id.timestamp till)

Goes-forward :
    (request : RangeRequest)
    → request.reverse ≡ false
    → (a b : Entry) → IsEntry a
    → IsEntry b
    → Precedes a b
    → Goes request a b
Goes-forward request forward a b (ia, _) (ib, _) p h = ground arith

forward_inside :
    (request : RangeRequest)
    → request.reverse ≡ false
    → (entry : Entry) → is_inside request entry ≡ in_range request.from request.till entry
forward_inside request forward entry = ground arith

-- An entry in front of the one where the scan starts is older than the range.
older :
    (from till : ℕ) (x entry : Entry)
    → IsLong from
    → (from == 0) ≡ false
    → IsEntry entry
    → is_after (target_of from) entry ≡ false
    → IsEntry x
    → Precedes x entry
    → in_range from till x ≡ false
older from till x entry long set valid not_after v p = outside (
    ltb→le (from * 2 ^ 64) (position_of entry.id)
      (sym (is_after-target_of from entry long (ground arith) valid) ∙ not_after))
  where
    outside : position_of entry.id ≤ from * 2 ^ 64 → in_range from till x ≡ false
    outside h =
        ap (λ b. b && (till == 0 || leb x.id.timestamp till))
          (lt→leb from x.id.timestamp (omega arith))

module _ {S D : Type 0} (parse : List ℕ → D) (fn : S → Key → D → S × ℕ) (rows : List Entry)
    (C : Cursors rows) where
  -- A scan forward starts at the first entry, or at the last one not after the key that is sought.
  abbrev Ahead : RangeRequest → C.Cursor → Type 0
  Ahead request c =
      (C.ahead c ≡ rows)
      ⊎ ((front : List Entry) × (entry : Entry) × (rest : List Entry) × (C.ahead c ≡ entry ∷ rest)
          × (rows ≡ front ++ (entry ∷ rest))
          × (is_after (target_of request.from) entry ≡ false)
          × ((request.from == 0) ≡ false))

  seek-Ahead :
      (request : RangeRequest)
      → IsSorted rows
      → IsLong request.from
      → Ahead request (seek parse fn rows C (record request { reverse = false }))
  unfolding seek
  seek-Ahead request sorted long = at_start (request.from == 0) refl
    where
      target : List ℕ
      target = target_of request.from

      found : C.Cursor
      found = C.seek_for_prev target

      sought :
          (request.from == 0) ≡ false
          → Divided target rows
          → Ahead request (if not (C.is_valid found) then C.seek_to_first else found)
      sought set (inl later) =
          subst (λ v. Ahead request (if not v then C.seek_to_first else found))
            (sym (C.seek_for_prev-before target later)) (inl C.ahead-seek_to_first)
      sought set (inr (front, entry, rest, all, early, own, later)) =
          let (at, back) = C.seek_for_prev-between target front entry rest all early own later in
          subst (λ v. Ahead request (if not v then C.seek_to_first else found))
            (sym (C.own_ahead found entry rest at).0) (inr (front, entry, rest, at, all, own, set))

      at_start :
          (unset : Bool)
          → (request.from == 0) ≡ unset
          → Ahead request (
              if unset
              then C.seek_to_first
              else (if not (C.is_valid found) then C.seek_to_first else found))
      at_start true e = inl C.ahead-seek_to_first
      at_start false e =
          sought e
            (divide request.from rows long (ground arith) sorted.0 (IsSorted-Precedes rows sorted))

  -- `Iter` forward calls the callback on the entries from the first timestamp of the request to its
  -- last, both in the range, in the order of the keys, up to the limits of the request, whatever the
  -- callback does: if the entries are sorted by the comparator and carry a timestamp each, the numbers
  -- fit in 64 bits, and the loop has fuel for each entry and one round more.
  pub iter-forward :
      (fuel : ℕ) (request : RangeRequest) (s : S)
      → IsSorted rows
      → request.reverse ≡ false
      → IsLong request.from
      → length rows < fuel
      → iter parse fn rows C fuel request s
        ≡ some (deliver parse fn request (select (in_range request.from request.till) rows) s 0 0)
  unfolding iter
  iter-forward fuel request s (valid, sorted) forward long room =
      subst
        (λ b.
          scan parse fn rows C fuel (record request { reverse = b })
            (seek parse fn rows C (record request { reverse = b })) s 0 0
          ≡ some
              (deliver parse fn request (select (in_range request.from request.till) rows) s 0 0))
        (sym forward) (from_start (seek-Ahead request (valid, sorted) long))
    where
      onward : RangeRequest
      onward = record request { reverse = false }

      goal : Type 0
      goal =
          scan parse fn rows C fuel onward (seek parse fn rows C onward) s 0 0
          ≡ some (deliver parse fn request (select (in_range request.from request.till) rows) s 0 0)

      from_entries :
          (entries : List Entry)
          → C.ahead (seek parse fn rows C onward) ≡ entries
          → All IsEntry entries
          → Pairwise Precedes entries
          → length entries < fuel
          → select (in_range request.from request.till) entries
            ≡ select (in_range request.from request.till) rows
          → goal
      from_entries entries at v p r same =
          scan-deliver parse fn rows C fuel onward entries (seek parse fn rows C onward) s at v
            (Pairwise-both IsEntry Precedes (Goes onward) (Goes-forward onward refl) entries v p) r
          ∙ ap (λ es. some (deliver parse fn request es s 0 0))
              (select-ext (is_inside onward) (in_range request.from request.till) entries (
                  All-imp IsEntry (λ e. is_inside onward e ≡ in_range request.from request.till e)
                    (λ e w. forward_inside onward refl e) entries v)
                ∙ same)

      from_start : Ahead request (seek parse fn rows C onward) → goal
      from_start (inl at) =
          from_entries rows at valid (IsSorted-Precedes rows (valid, sorted)) room refl
      from_start (inr (front, entry, rest, at, all, not_after, set)) =
          let (before, (v, vs)) =
            All-append_parts IsEntry front (entry ∷ rest) (subst (All IsEntry) all valid) in
          let p = subst (Pairwise Precedes) all (IsSorted-Precedes rows (valid, sorted)) in
          from_entries (entry ∷ rest) at (v, vs)
            (Pairwise-append_right Precedes front (entry ∷ rest) p)
            (omega (arith, ap length all, length-append front (entry ∷ rest)))
            (sym (
              ap (select (in_range request.from request.till)) all
              ∙ select-skip (in_range request.from request.till) front (entry ∷ rest) (
                  All-both IsEntry (λ x. Precedes x entry)
                    (λ x. in_range request.from request.till x ≡ false)
                    (λ x. older request.from request.till x entry long set v not_after) front before
                    (Pairwise-middle Precedes front rest entry p))))
