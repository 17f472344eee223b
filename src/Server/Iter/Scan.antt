-- ===== src/Server/Iter/Scan.antt =====
-- The loop of `DbClient::Iter` over the entries that the iterator reaches: what it sends, apart from
-- the iterator and from the order of the guards.
use timemachine.Base.{
  ℕ, ◌≡◌, refl, sym, ap, ◌∙◌, List, [], ◌∷◌, Bool, true, false, ◌&&◌, ◌||◌, All, Pairwise, select,
  select-none, decide_true, All-imp, leb, ltb, ◌==◌, if◌then◌else◌,
}
use mathlib.Core.Logic.{ite}
use timemachine.Server.Key.{Key}
use timemachine.Server.Cursor.{Entry}
use timemachine.Server.Iter.{RangeRequest, Decision, not, decide, plus}

-- A limit that is set is reached.
abbrev pub is_spent : RangeRequest → ℕ → ℕ → Bool
is_spent request bytes_sent messages_sent =
    (not (request.maxbytes == 0) && leb request.maxbytes bytes_sent)
    || (not (request.maxmessages == 0) && leb request.maxmessages messages_sent)

-- Where a key stands to the range, in the direction of the scan.
pub data Place : Type 0 where
  beyond : Place
  short : Place
  inside : Place

abbrev pub place : RangeRequest → Key → Place
place request key =
    if not request.reverse && (not (request.till == 0) && ltb request.till key.timestamp)
    then Place.beyond
    else (if request.reverse && (not (request.from == 0) && leb key.timestamp request.from)
        then Place.beyond
        else (if not request.reverse && ltb key.timestamp request.from
            then Place.short
            else Place.inside))

abbrev pub is_inside : RangeRequest → Entry → Bool
is_inside request entry = elim (place request entry.id) [
  | Place.beyond ↦ false
  | Place.short ↦ false
  | Place.inside ↦ true
]

abbrev decision : Bool → Place → Decision
decision spent Place.beyond = Decision.leave
decision spent Place.short = Decision.pass
decision spent Place.inside = if spent then Decision.leave else Decision.send

two_guards :
    (a b : Bool)
    → (if a then Decision.leave else (if b then Decision.leave else Decision.send))
      ≡ (if a || b then Decision.leave else Decision.send)
two_guards true b = refl
two_guards false b = refl

decide-place :
    (request : RangeRequest) (key : Key) (bytes_sent messages_sent : ℕ)
    → decide request key bytes_sent messages_sent
      ≡ decision (is_spent request bytes_sent messages_sent) (place request key)
unfolding decide
decide-place request key b m =
    branches (not request.reverse && (not (request.till == 0) && ltb request.till key.timestamp))
      (request.reverse && (not (request.from == 0) && leb key.timestamp request.from))
      (not request.reverse && ltb key.timestamp request.from)
      (not (request.maxbytes == 0) && leb request.maxbytes b)
      (not (request.maxmessages == 0) && leb request.maxmessages m)
  where
    branches :
        (p q r s t : Bool)
        → (if p
            then Decision.leave
            else (if q
                then Decision.leave
                else (if r
                    then Decision.pass
                    else (if s
                        then Decision.leave
                        else (if t then Decision.leave else Decision.send)))))
          ≡ decision (s || t) (
              if p
              then Place.beyond
              else (if q then Place.beyond else (if r then Place.short else Place.inside)))
    branches true q r s t = refl
    branches false true r s t = refl
    branches false false true s t = refl
    branches false false false s t = two_guards s t

-- The loop stops at an entry beyond the range, so that none inside it may follow.
abbrev pub Goes : RangeRequest → Entry → Entry → Type 0
Goes request a b = place request a.id ≡ Place.beyond → place request b.id ≡ Place.beyond

beyond-none :
    (request : RangeRequest) (entry : Entry) (entries : List Entry)
    → All (Goes request entry) entries
    → place request entry.id ≡ Place.beyond
    → select (is_inside request) entries ≡ []
beyond-none request entry entries goes here = select-none (is_inside request) entries (
    All-imp (Goes request entry) (λ e. is_inside request e ≡ false) (λ e g. ap at (g here)) entries
      goes)
  where
    at : Place → Bool
    at p = elim p [ Place.beyond ↦ false | Place.short ↦ false | Place.inside ↦ true ]

module _ {S D : Type 0} (parse : List ℕ → D) (fn : S → Key → D → S × ℕ) where
  -- The calls of the callback on entries, one after the other, up to the limits of the request.
  abbrev pub deliver : RangeRequest → List Entry → S → ℕ → ℕ → S
  deliver request [] s bytes_sent messages_sent = s
  deliver request (entry ∷ entries) s bytes_sent messages_sent =
      elim (is_spent request bytes_sent messages_sent) [
        | true ↦ s
        | false ↦
            let (s', sent) = fn s entry.id (parse entry.value) in
            deliver request entries s' (plus bytes_sent sent) (plus messages_sent 1)
      ]

  -- The rounds of the loop over a list of entries.
  abbrev pub visit : RangeRequest → List Entry → S → ℕ → ℕ → S
  visit request [] s bytes_sent messages_sent = s
  visit request (entry ∷ entries) s bytes_sent messages_sent =
      elim (decide request entry.id bytes_sent messages_sent) [
        | Decision.leave ↦ s
        | Decision.pass ↦ visit request entries s bytes_sent messages_sent
        | Decision.send ↦
            let (s', sent) = fn s entry.id (parse entry.value) in
            visit request entries s' (plus bytes_sent sent) (plus messages_sent 1)
      ]

  -- The rounds call the callback on the entries inside the range.
  pub visit-deliver :
      (request : RangeRequest) (entries : List Entry) (s : S) (b m : ℕ)
      → Pairwise (Goes request) entries
      → visit request entries s b m ≡ deliver request (select (is_inside request) entries) s b m
  visit-deliver request [] s b m goes = refl
  visit-deliver request (entry ∷ entries) s b m (goes, later) =
      ap (by_decision (fn s entry.id (parse entry.value))) (decide-place request entry.id b m)
      ∙ by_place (place request entry.id) refl
          (λ t b' m'. visit-deliver request entries t b' m' later)
    where
      by_decision : S × ℕ → Decision → S
      by_decision sent d = elim d [
        | Decision.leave ↦ s
        | Decision.pass ↦ visit request entries s b m
        | Decision.send ↦ visit request entries sent.0 (plus b sent.1) (plus m 1)
      ]

      is_in : Place → Bool
      is_in p = elim p [ Place.beyond ↦ false | Place.short ↦ false | Place.inside ↦ true ]

      chosen : List Entry
      chosen = select (is_inside request) entries

      unless_spent :
          (spent : Bool) (sent : S × ℕ)
          → ((t : S) (b' m' : ℕ) → visit request entries t b' m' ≡ deliver request chosen t b' m')
          → by_decision sent (decision spent Place.inside) ≡ elim spent [
            | true ↦ s
            | false ↦ deliver request chosen sent.0 (plus b sent.1) (plus m 1)
          ]
      unless_spent true sent rest = refl
      unless_spent false sent rest = rest sent.0 (plus b sent.1) (plus m 1)

      by_place :
          (p : Place)
          → place request entry.id ≡ p
          → ((t : S) (b' m' : ℕ) → visit request entries t b' m' ≡ deliver request chosen t b' m')
          → by_decision (fn s entry.id (parse entry.value)) (decision (is_spent request b m) p)
            ≡ deliver request
                (ite {C = List Entry} (decide_true (is_in p)) (entry ∷ chosen) chosen)
                s
                b
                m
      by_place Place.beyond e rest =
          sym (ap (λ es. deliver request es s b m) (beyond-none request entry entries goes e))
      by_place Place.short e rest = rest s b m
      by_place Place.inside e rest =
          unless_spent (is_spent request b m) (fn s entry.id (parse entry.value)) rest
