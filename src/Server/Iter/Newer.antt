-- ===== src/Server/Iter/Newer.antt =====
-- The range of a scan in reverse in src/DbClient.cpp, apart from the scan.
use timemachine.Base.{
  ℕ, ◌*◌, ◌^◌, ◌<◌, ◌≤◌, ◌≡◌, refl, sym, ap, ◌∙◌, List, ◌∷◌, ◌++◌, Bool, true, false, ◌&&◌, ◌||◌,
  All, All-imp, All-append_parts, All-both, ltb→le, lt→leb, ltb→lt, Pairwise, Pairwise-append_right,
  select, select-ext, select-skip, ltb, leb, ◌==◌, arith,
}
use timemachine.Protobuf.Runtime.{IsLong}
use timemachine.Server.IdComparator.Order.{position_of}
use timemachine.Server.Cursor.{Entry, IsEntry, is_after, IsLater}
use timemachine.Server.Iter.Range.{Precedes}
use timemachine.Server.Iter.Seek.{target_of, is_after-target_of}

abbrev pub is_newer : ℕ → Entry → Bool
is_newer from entry = from == 0 || ltb from entry.id.timestamp

-- After the first timestamp, and not behind the key that the last one makes.
abbrev pub in_reverse_range : ℕ → ℕ → Entry → Bool
in_reverse_range from till entry =
    is_newer from entry && (till == 0 || leb (position_of entry.id) (till * 2 ^ 64))

and_true : (b : Bool) → b && true ≡ b
and_true true = refl
and_true false = refl

and_false : (b : Bool) → b && false ≡ false
and_false true = refl
and_false false = refl

-- The upper bound alone, where it is kept and where it is not.
kept :
    (from till : ℕ) (entry : Entry)
    → (till == 0 || leb (position_of entry.id) (till * 2 ^ 64)) ≡ true
    → in_reverse_range from till entry ≡ is_newer from entry
kept from till entry h = ap (λ b. is_newer from entry && b) h ∙ and_true (is_newer from entry)

pub is_behind :
    (till : ℕ) (entry : Entry)
    → (till == 0) ≡ false
    → IsLong till
    → IsEntry entry
    → is_after (target_of till) entry ≡ true
    → till * 2 ^ 64 < position_of entry.id
is_behind till entry set long valid after =
    ltb→lt (till * 2 ^ 64) (position_of entry.id)
      (sym (is_after-target_of till entry long (ground arith) valid) ∙ after)

not_kept :
    (from till : ℕ) (entry : Entry)
    → (till == 0) ≡ false
    → IsLong till
    → IsEntry entry
    → is_after (target_of till) entry ≡ true
    → in_reverse_range from till entry ≡ false
not_kept from till entry set long valid after =
    ap (λ b. is_newer from entry && b) bound ∙ and_false (is_newer from entry)
  where
    bound : (till == 0 || leb (position_of entry.id) (till * 2 ^ 64)) ≡ false
    bound =
        ap (λ b. b || leb (position_of entry.id) (till * 2 ^ 64)) set
        ∙ lt→leb _ _ (is_behind till entry set long valid after)

pub not_after_below :
    (till : ℕ) (entry : Entry)
    → (till == 0) ≡ false
    → IsLong till
    → IsEntry entry
    → is_after (target_of till) entry ≡ false
    → position_of entry.id ≤ till * 2 ^ 64
not_after_below till entry set long valid not_after =
    ltb→le (till * 2 ^ 64) (position_of entry.id)
      (sym (is_after-target_of till entry long (ground arith) valid) ∙ not_after)

within_bound :
    (till : ℕ) (entry : Entry)
    → position_of entry.id ≤ till * 2 ^ 64
    → (till == 0 || leb (position_of entry.id) (till * 2 ^ 64)) ≡ true
within_bound till entry h = ground arith

-- Where all entries keep the upper bound, the lower one decides.
abbrev pub IsWithin : ℕ → Entry → Type 0
IsWithin till entry = (till == 0 || leb (position_of entry.id) (till * 2 ^ 64)) ≡ true

pub select-IsWithin :
    (from till : ℕ) (entries : List Entry)
    → All (IsWithin till) entries
    → select (is_newer from) entries ≡ select (in_reverse_range from till) entries
select-IsWithin from till entries within = sym (
    select-ext (in_reverse_range from till) (is_newer from) entries (
      All-imp (IsWithin till) (λ e. in_reverse_range from till e ≡ is_newer from e) (kept from till)
        entries within))

pub unset-IsWithin :
    (till : ℕ) (entries : List Entry)
    → (till == 0) ≡ true
    → All IsEntry entries
    → All (IsWithin till) entries
unset-IsWithin till entries unset valid =
    All-imp IsEntry (IsWithin till)
      (λ e w. ap (λ b. b || leb (position_of e.id) (till * 2 ^ 64)) unset) entries valid

-- Entries in falling order, from one that is not after the key on.
falling-IsWithin :
    (till : ℕ) (entry : Entry) (more : List Entry)
    → position_of entry.id ≤ till * 2 ^ 64
    → All (λ e. Precedes e entry) more
    → All (IsWithin till) (entry ∷ more)
falling-IsWithin till entry more low p = (
  within_bound till entry low,
  All-imp (λ e. Precedes e entry) (IsWithin till) (λ e h. within_bound till e (omega arith)) more p,
)

-- What stands in front of them is left out by the upper bound.
pub select-found :
    (from till : ℕ) (front : List Entry) (entry : Entry) (more : List Entry)
    → (till == 0) ≡ false
    → IsLong till
    → All IsEntry (front ++ (entry ∷ more))
    → Pairwise (λ a b. Precedes b a) (front ++ (entry ∷ more))
    → All (IsLater (target_of till)) front
    → is_after (target_of till) entry ≡ false
    → select (is_newer from) (entry ∷ more)
      ≡ select (in_reverse_range from till) (front ++ (entry ∷ more))
select-found from till front entry more set long valid falling after not_after =
    let (before, (v, vs)) = All-append_parts IsEntry front (entry ∷ more) valid in
    let (p, ps) = Pairwise-append_right (λ a b. Precedes b a) front (entry ∷ more) falling in
    select-IsWithin from till (entry ∷ more)
      (falling-IsWithin till entry more (not_after_below till entry set long v not_after) p)
    ∙ sym (
        select-skip (in_reverse_range from till) front (entry ∷ more) (
          All-both IsEntry (IsLater (target_of till)) (λ e. in_reverse_range from till e ≡ false)
            (λ e w h. not_kept from till e set long w h) front before after))
