-- ===== src/Server/Iter/Behind.antt =====
-- Where a scan of `DbClient::Iter` of src/DbClient.cpp in reverse starts, and what it calls back on.
use timemachine.Base.{
  ℕ, ◌<◌, ◌≤◌, ◌≡◌, ◌⊎◌, inl, inr, refl, sym, ap, ◌∙◌, List, [], ◌∷◌, ◌++◌, reverse, Bool, true,
  false, some, length, All, All-imp, All-append_parts, reverse-cons, length-reverse, reverse-append,
  append_assoc, All-reverse, Pairwise, Pairwise-both, Pairwise-append_right, Pairwise-reverse,
  select, select-ext, ◌==◌, if◌then◌else◌, arith, subst, length-append,
}
use timemachine.Protobuf.Runtime.{IsLong}
use timemachine.Server.Key.{Key}
use timemachine.Server.Cursor.{Entry, IsEntry, Cursors, is_after, IsLater}
use timemachine.Server.Iter.{RangeRequest, not, iter, seek}
use timemachine.Server.Iter.Scan.{deliver, is_inside, Goes}
use timemachine.Server.Iter.Range.{IsSorted, Precedes, IsSorted-Precedes, scan-deliver}
use timemachine.Server.Iter.Seek.{Divided, divide, target_of}
use timemachine.Server.Iter.Newer.{is_newer}

Goes-backward :
    (request : RangeRequest)
    → request.reverse ≡ true
    → (a b : Entry) → IsEntry a
    → IsEntry b
    → Precedes b a
    → Goes request a b
Goes-backward request backward a b (ia, _) (ib, _) p h = ground arith

backward_inside :
    (request : RangeRequest)
    → request.reverse ≡ true
    → (entry : Entry) → is_inside request entry ≡ is_newer request.from entry
backward_inside request backward entry = ground arith

reverse-around :
    (front : List Entry) (entry : Entry) (rest : List Entry)
    → reverse (front ++ (entry ∷ rest)) ≡ reverse rest ++ (entry ∷ reverse front)
reverse-around front entry rest =
    reverse-append front (entry ∷ rest)
    ∙ ap (λ t. t ++ reverse front) (reverse-cons entry rest)
    ∙ append_assoc (reverse rest) (entry ∷ []) (reverse front)

module _ {S D : Type 0} (parse : List ℕ → D) (fn : S → Key → D → S × ℕ) (rows : List Entry)
    (C : Cursors rows) where
  -- A scan in reverse starts at the last entry, or at the last one not after the key that is sought.
  abbrev pub Behind : RangeRequest → C.Cursor → Type 0
  Behind request c =
      ((C.behind c ≡ reverse rows)
        × (((request.till == 0) ≡ true)
            ⊎ All (λ e. is_after (target_of request.till) e ≡ true) (reverse rows)))
      ⊎ ((front : List Entry) × (entry : Entry) × (rest : List Entry) × (C.behind c ≡ entry ∷ rest)
          × (reverse rows ≡ front ++ (entry ∷ rest))
          × All (λ e. is_after (target_of request.till) e ≡ true) front
          × (is_after (target_of request.till) entry ≡ false)
          × ((request.till == 0) ≡ false))

  pub seek-Behind :
      (request : RangeRequest)
      → IsSorted rows
      → IsLong request.till
      → Behind request (seek parse fn rows C (record request { reverse = true }))
  unfolding seek
  seek-Behind request sorted long = at_end (request.till == 0) refl
    where
      target : List ℕ
      target = target_of request.till

      found : C.Cursor
      found = C.seek_for_prev target

      sought :
          (request.till == 0) ≡ false
          → Divided target rows
          → Behind request (if not (C.is_valid found) then C.seek_to_last else found)
      sought set (inl later) =
          subst (λ v. Behind request (if not v then C.seek_to_last else found))
            (sym (C.seek_for_prev-before target later))
            (inl (C.behind-seek_to_last, inr (All-reverse (IsLater target) rows later)))
      sought set (inr (front, entry, rest, all, early, own, later)) =
          let (ahead, at) = C.seek_for_prev-between target front entry rest all early own later in
          subst (λ v. Behind request (if not v then C.seek_to_last else found))
            (sym (C.own_behind found entry (reverse front) at).0)
            (inr (
              reverse rest,
              entry,
              reverse front,
              at,
              ap reverse all ∙ reverse-around front entry rest,
              All-reverse (IsLater target) rest later,
              own,
              set,
            ))

      at_end :
          (unset : Bool)
          → (request.till == 0) ≡ unset
          → Behind request (
              if unset
              then C.seek_to_last
              else (if not (C.is_valid found) then C.seek_to_last else found))
      at_end true e = inl (C.behind-seek_to_last, inl e)
      at_end false e =
          sought e
            (divide request.till rows long (ground arith) sorted.0 (IsSorted-Precedes rows sorted))

  falling_rows : IsSorted rows → Pairwise (λ a b. Precedes b a) (reverse rows)
  falling_rows sorted = Pairwise-reverse Precedes rows (IsSorted-Precedes rows sorted)

  -- The entries behind are entries of the folder, in falling order.
  behind-valid :
      (request : RangeRequest) (c : C.Cursor)
      → IsSorted rows
      → Behind request c
      → All IsEntry (C.behind c)
        × Pairwise (λ a b. Precedes b a) (C.behind c)
        × (length (C.behind c) ≤ length rows)
  behind-valid request c sorted (inl (at, why)) = (
    subst (All IsEntry) (sym at) (All-reverse IsEntry rows sorted.0),
    subst (Pairwise (λ a b. Precedes b a)) (sym at) (falling_rows sorted),
    omega (arith, ap length at, length-reverse rows),
  )
  behind-valid request c sorted (inr (front, entry, more, at, all, after, own, set)) = (
    subst (All IsEntry) (sym at)
        (All-append_parts IsEntry front (entry ∷ more)
          (subst (All IsEntry) all (All-reverse IsEntry rows sorted.0))).1,
    subst (Pairwise (λ a b. Precedes b a)) (sym at) (
        Pairwise-append_right (λ a b. Precedes b a) front (entry ∷ more)
          (subst (Pairwise (λ a b. Precedes b a)) all (falling_rows sorted))),
    omega (
      arith,
      ap length at,
      ap length all,
      length-append front (entry ∷ more),
      length-reverse rows,
    ),
  )

  -- The callback is called on the entries behind the start that are newer than the range.
  pub iter-behind :
      (fuel : ℕ) (request : RangeRequest) (s : S)
      → IsSorted rows
      → IsLong request.till
      → length rows < fuel
      → iter parse fn rows C fuel (record request { reverse = true }) s
        ≡ some (
            deliver parse fn request
              (select
                (is_newer request.from)
                (C.behind (seek parse fn rows C (record request { reverse = true }))))
              s
              0
              0)
  unfolding iter
  iter-behind fuel request s sorted long room =
      let start = seek parse fn rows C back in
      let (v, p, r) = behind-valid request start sorted (seek-Behind request sorted long) in
      scan-deliver parse fn rows C fuel back (C.behind start) start s refl v
        (Pairwise-both IsEntry (λ a b. Precedes b a) (Goes back) (Goes-backward back refl)
          (C.behind start) v p)
        (omega arith)
      ∙ ap (λ es. some (deliver parse fn request es s 0 0))
          (select-ext (is_inside back) (is_newer request.from) (C.behind start) (
            All-imp IsEntry (λ e. is_inside back e ≡ is_newer request.from e)
              (λ e w. backward_inside back refl e) (C.behind start) v))
    where
      back : RangeRequest
      back = record request { reverse = true }
