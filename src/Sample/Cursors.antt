-- ===== src/Sample/Cursors.antt =====
-- An iterator over a list of entries that keeps all that is relied on of RocksDB's.
use timemachine.Base.{ℕ, ◌≡◌, refl, ap, ◌∙◌, List, [], ◌∷◌, ◌++◌, reverse, Bool, true, false, All}
use mathlib.Core.List.{reverse_aux}
use timemachine.Server.Key.{serialize_id}
use timemachine.Server.Cursor.{Entry, Cursors, IsLater, IsEarly, is_after}

-- The entries before the own one, the nearest first, and those behind it.
pub data Place : Type 0 where
  nowhere : Place
  place : List Entry → Entry → List Entry → Place

abbrev pub ahead : Place → List Entry
ahead Place.nowhere = []
ahead (Place.place before own after) = own ∷ after

abbrev pub behind : Place → List Entry
behind Place.nowhere = []
behind (Place.place before own after) = own ∷ before

-- At the first of the entries, or at the first of those before it.
abbrev pub forward_from : List Entry → List Entry → Place
forward_from before [] = Place.nowhere
forward_from before (own ∷ after) = Place.place before own after

abbrev pub backward_from : List Entry → List Entry → Place
backward_from [] after = Place.nowhere
backward_from (own ∷ before) after = Place.place before own after

abbrev pub next : Place → Place
next Place.nowhere = Place.nowhere
next (Place.place before own after) = forward_from (own ∷ before) after

abbrev pub prev : Place → Place
prev Place.nowhere = Place.nowhere
prev (Place.place before own after) = backward_from before (own ∷ after)

abbrev pub is_valid : Place → Bool
is_valid Place.nowhere = false
is_valid (Place.place before own after) = true

abbrev pub key : Place → List ℕ
key Place.nowhere = []
key (Place.place before own after) = serialize_id own.id

abbrev pub value : Place → List ℕ
value Place.nowhere = []
value (Place.place before own after) = own.value

-- Past the entries that are not after the key.
abbrev pub walk : List ℕ → List Entry → List Entry → Place
walk target before [] = backward_from before []
walk target before (entry ∷ entries) =
    let further = walk target (entry ∷ before) entries in
    elim (is_after target entry) [ true ↦ backward_from before (entry ∷ entries) | false ↦ further ]

pub ahead-forward_from : (before after : List Entry) → ahead (forward_from before after) ≡ after
ahead-forward_from before [] = refl
ahead-forward_from before (own ∷ after) = refl

pub behind-backward_from :
    (before after : List Entry) → behind (backward_from before after) ≡ before
behind-backward_from [] after = refl
behind-backward_from (own ∷ before) after = refl

pub walk-later :
    (target : List ℕ) (before entries : List Entry)
    → All (IsLater target) entries
    → walk target before entries ≡ backward_from before entries
walk-later target before [] later = refl
walk-later target before (entry ∷ entries) (l, later) =
    ap
      (λ b. elim b [
        | true ↦ backward_from before (entry ∷ entries)
        | false ↦ walk target (entry ∷ before) entries
      ])
      l

walk-early :
    (target : List ℕ) (before : List Entry) (entry : Entry) (rest : List Entry)
    → IsEarly target entry
    → walk target before (entry ∷ rest) ≡ walk target (entry ∷ before) rest
walk-early target before entry rest e =
    ap
      (λ b. elim b [
        | true ↦ backward_from before (entry ∷ rest)
        | false ↦ walk target (entry ∷ before) rest
      ])
      e

pub walk-between :
    (target : List ℕ) (before front : List Entry) (entry : Entry) (rest : List Entry)
    → All (IsEarly target) front
    → IsEarly target entry
    → All (IsLater target) rest
    → walk target before (front ++ (entry ∷ rest))
      ≡ Place.place (reverse_aux front before) entry rest
walk-between target before [] entry rest early own later =
    walk-early target before entry rest own ∙ walk-later target (entry ∷ before) rest later
walk-between target before (first ∷ front) entry rest (e, early) own later =
    walk-early target before first (front ++ (entry ∷ rest)) e
    ∙ walk-between target (first ∷ before) front entry rest early own later

pub no_ahead : (c : Place) → ahead c ≡ [] → is_valid c ≡ false
no_ahead Place.nowhere h = refl
no_ahead (Place.place before own after) h = cc

pub no_behind : (c : Place) → behind c ≡ [] → is_valid c ≡ false
no_behind Place.nowhere h = refl
no_behind (Place.place before own after) h = cc

pub own_ahead :
    (c : Place) (entry : Entry) (entries : List Entry)
    → ahead c ≡ entry ∷ entries
    → (is_valid c ≡ true)
      × (key c ≡ serialize_id entry.id)
      × (value c ≡ entry.value)
      × (ahead (next c) ≡ entries)
own_ahead Place.nowhere entry entries h = cc
own_ahead (Place.place before own after) entry entries h =
    (refl, cc, cc, ahead-forward_from (own ∷ before) after ∙ cc)

pub own_behind :
    (c : Place) (entry : Entry) (entries : List Entry)
    → behind c ≡ entry ∷ entries
    → (is_valid c ≡ true)
      × (key c ≡ serialize_id entry.id)
      × (value c ≡ entry.value)
      × (behind (prev c) ≡ entries)
own_behind Place.nowhere entry entries h = cc
own_behind (Place.place before own after) entry entries h =
    (refl, cc, cc, behind-backward_from before (own ∷ after) ∙ cc)

abbrev pub cursors : (rows : List Entry) → Cursors rows
cursors rows = record {
  Cursor = Place;
  seek_to_first = forward_from [] rows;
  seek_to_last = backward_from (reverse rows) [];
  seek_for_prev = λ target. walk target [] rows;
  next = next;
  prev = prev;
  is_valid = is_valid;
  key = key;
  value = value;
  ahead = ahead;
  behind = behind;
  ahead-seek_to_first = ahead-forward_from [] rows;
  behind-seek_to_last = behind-backward_from (reverse rows) [];
  seek_for_prev-before = λ target later. ap is_valid (walk-later target [] rows later);
  seek_for_prev-between = λ target front entry rest all early own later. (
    ap (λ es. ahead (walk target [] es)) all
        ∙ ap ahead (walk-between target [] front entry rest early own later),
    ap (λ es. behind (walk target [] es)) all
        ∙ ap behind (walk-between target [] front entry rest early own later),
  );
  no_ahead = no_ahead;
  no_behind = no_behind;
  own_ahead = own_ahead;
  own_behind = own_behind;
}
