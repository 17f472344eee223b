-- ===== src/Server/Iter/Loop.antt =====
-- The loop of `DbClient::Iter` of src/DbClient.cpp, apart from the iterator.
use timemachine.Base.{
  ℕ, zero, suc, ◌<◌, ◌≡◌, refl, sym, ap, ap₂, ◌∙◌, List, [], ◌∷◌, Bool, true, false, Option, some,
  length, All, if◌then◌else◌, arith, Bool-cases, inl, inr,
}
use timemachine.Server.Key.{Key, serialize_id, deserialize_id, deserialize_id-serialize_id}
use timemachine.Server.Cursor.{Entry, IsEntry, Cursors}
use timemachine.Server.Iter.{RangeRequest, Decision, decide, plus, step, scan}
use timemachine.Server.Iter.Scan.{visit}

module _ {S D : Type 0} (parse : List ℕ → D) (fn : S → Key → D → S × ℕ) (rows : List Entry)
    (C : Cursors rows) where
  -- The entries from the iterator's own on, in the direction of the request.
  abbrev pub upcoming : RangeRequest → C.Cursor → List Entry
  upcoming request c = if request.reverse then C.behind c else C.ahead c

  upcoming-nil :
      (request : RangeRequest) (c : C.Cursor) → upcoming request c ≡ [] → C.is_valid c ≡ false
  upcoming-nil request c h = elim (Bool-cases request.reverse) [
    | inl e ↦ C.no_behind c (sym (ap (λ b. if b then C.behind c else C.ahead c) e) ∙ h)
    | inr e ↦ C.no_ahead c (sym (ap (λ b. if b then C.behind c else C.ahead c) e) ∙ h)
  ]

  -- What the iterator holds, and where the next round starts.
  upcoming-cons :
      (request : RangeRequest) (c : C.Cursor) (entry : Entry) (entries : List Entry)
      → upcoming request c ≡ entry ∷ entries
      → (C.is_valid c ≡ true)
        × (C.key c ≡ serialize_id entry.id)
        × (C.value c ≡ entry.value)
        × (upcoming request (step parse fn rows C request c) ≡ entries)
  upcoming-cons request c entry entries h = by_direction request.reverse h
    where
      by_direction :
          (b : Bool)
          → (if b then C.behind c else C.ahead c) ≡ entry ∷ entries
          → (C.is_valid c ≡ true)
            × (C.key c ≡ serialize_id entry.id)
            × (C.value c ≡ entry.value)
            × ((if b
                  then C.behind (if b then C.prev c else C.next c)
                  else C.ahead (if b then C.prev c else C.next c))
                ≡ entries)
      by_direction true h = C.own_behind c entry entries h
      by_direction false h = C.own_ahead c entry entries h

  -- A round of the loop, by what the iterator holds.
  abbrev round : ℕ → RangeRequest → C.Cursor → S → ℕ → ℕ → Bool → Key → D → Option S
  round fuel request c s b m there key message = elim there [
    | false ↦ some s
    | true ↦ elim (decide request key b m) [
      | Decision.leave ↦ some s
      | Decision.pass ↦ scan parse fn rows C fuel request c s b m
      | Decision.send ↦
          let (s', sent) = fn s key message in
          scan parse fn rows C fuel request c s' (plus b sent) (plus m 1)
    ]
  ]

  -- With fuel for each entry, the loop ends, and has visited them all.
  pub scan-visit :
      (fuel : ℕ) (request : RangeRequest) (entries : List Entry) (c : C.Cursor) (s : S) (b m : ℕ)
      → length entries < fuel
      → All IsEntry entries
      → upcoming request c ≡ entries
      → scan parse fn rows C fuel request c s b m ≡ some (visit parse fn request entries s b m)
  unfolding scan
  scan-visit zero request entries c s b m room valid at = absurd (omega arith)
  scan-visit (suc fuel) request [] c s b m room valid at =
      ap
        (λ t.
          round fuel request (step parse fn rows C request c) s b m t (deserialize_id (C.key c))
            (parse (C.value c)))
        (upcoming-nil request c at)
  scan-visit (suc fuel) request (entry ∷ entries) c s b m room ((id, _), valid) at =
      let (there, k, v, rest) = upcoming-cons request c entry entries at in
      let next = step parse fn rows C request c in
      ap (λ t. round fuel request next s b m t (deserialize_id (C.key c)) (parse (C.value c))) there
      ∙ ap₂ (λ i d. round fuel request next s b m true i d)
          (ap deserialize_id k ∙ deserialize_id-serialize_id entry.id id) (ap parse v)
      ∙ go_on (decide request entry.id b m) (fn s entry.id (parse entry.value)) next
          (λ t b' m'. scan-visit fuel request entries next t b' m' (omega arith) valid rest)
    where
      go_on :
          (d : Decision) (sent : S × ℕ) (next : C.Cursor)
          → ((t : S) (b' m' : ℕ)
              → scan parse fn rows C fuel request next t b' m'
                ≡ some (visit parse fn request entries t b' m'))
          → elim d [
            | Decision.leave ↦ some s
            | Decision.pass ↦ scan parse fn rows C fuel request next s b m
            | Decision.send ↦
                scan parse fn rows C fuel request next sent.0 (plus b sent.1) (plus m 1)
          ]
            ≡ some (elim d [
              | Decision.leave ↦ s
              | Decision.pass ↦ visit parse fn request entries s b m
              | Decision.send ↦ visit parse fn request entries sent.0 (plus b sent.1) (plus m 1)
            ])
      go_on Decision.leave sent next rest = refl
      go_on Decision.pass sent next rest = rest s b m
      go_on Decision.send sent next rest = rest sent.0 (plus b sent.1) (plus m 1)
