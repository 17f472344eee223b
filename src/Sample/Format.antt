-- ===== src/Sample/Format.antt =====
-- The bytes of a value, and how they are read back from the front of a byte string.
use timemachine.Base.{
  ℕ, zero, suc, ◌+◌, ◌-◌, ◌*◌, ◌/◌, ◌%◌, ◌^◌, ◌≤◌, ◌<◌, ◌≡◌, refl, ap, ◌∙◌, ℤ, List, [], ◌∷◌, ◌++◌,
  true, Option, none, some, length, All, take, drop, take-append, drop-append, append_assoc,
  lengths, arith, ltb, leb, ◌==◌, if◌then◌else◌, le→leb, ap₂, Option-cases, inl, inr,
}
use native.Mathlib.Nat.{pow-suc}

-- A parser returns a value and the number of bytes that it took.
abbrev pub Parser : Type 0 → Type 0
Parser A = List ℕ → Option (A × ℕ)

-- Groups of seven bits, lowest first.
abbrev pub groups : ℕ → ℕ → List ℕ
groups zero v = v ∷ []
groups (suc k) v =
    let rest = groups k (v / 128) in if ltb v 128 then v ∷ [] else (v % 128 + 128) ∷ rest

-- As many groups as are wanted.
unfoldable pub varint : ℕ → List ℕ
varint v = groups v v

lt-pow : (v : ℕ) → v < 128 ^ suc v
lt-pow zero = omega arith
lt-pow (suc v) = omega (arith, lt-pow v, pow-suc 128 (suc v))

abbrev more_group : ℕ → Option (ℕ × ℕ) → Option (ℕ × ℕ)
more_group b none = none
more_group b (some (v, n)) = some (b - 128 + 128 * v, n + 1)

abbrev pub parse_varint : Parser ℕ
parse_varint [] = none
parse_varint (b ∷ bs) =
    let rest = parse_varint bs in if ltb b 128 then some (b, 1) else more_group b rest

parse-groups :
    (k v : ℕ) (rest : List ℕ)
    → v < 128 ^ suc k
    → parse_varint (groups k v ++ rest) ≡ some (v, length (groups k v))
parse-groups zero v rest h = ground arith
parse-groups (suc k) v rest h = ground (arith, parse-groups k (v / 128) rest (omega arith))

pub parse_varint_bounds :
    (bs : List ℕ) (v n : ℕ) → parse_varint bs ≡ some (v, n) → (0 < n) × (n ≤ length bs)
parse_varint_bounds [] v n h = cc
parse_varint_bounds (b ∷ bs) v n h = elim (Option-cases (parse_varint bs)) [
  | inl e ↦ ground (arith, e)
  | inr ((w, m), e) ↦ ground (arith, e, parse_varint_bounds bs w m e)
]

-- A varint ends at the first byte without its highest bit.
pub parse-long_varint :
    (front : List ℕ) (last : ℕ) (rest : List ℕ)
    → All (λ b. (128 ≤ b) × (b < 256)) front
    → last < 128
    → (v : ℕ) × (parse_varint ((front ++ (last ∷ [])) ++ rest)
        ≡ some (v, length (front ++ (last ∷ []))))
parse-long_varint [] last rest h small = (last, ground (arith, small))
parse-long_varint (b ∷ front) last rest ((high, byte), h) small =
    let (v, e) = parse-long_varint front last rest h small in
    (b - 128 + 128 * v, ground (arith, e, high))

pub varint_small : (n : ℕ) → n < 128 → varint n ≡ n ∷ []
unfolding varint
varint_small zero h = refl
varint_small (suc n) h = ground arith

pub parse-varint :
    (v : ℕ) (rest : List ℕ) → parse_varint (varint v ++ rest) ≡ some (v, length (varint v))
unfolding varint
parse-varint v rest = parse-groups v v rest (lt-pow v)

-- A string of numbers behind its length.
abbrev pub sized_list : List ℕ → List ℕ
sized_list l = varint (length l) ++ l

abbrev cut : List ℕ → Option (ℕ × ℕ) → Option (List ℕ × ℕ)
cut bs none = none
cut bs (some (n, k)) = if leb (n + k) (length bs) then some (take n (drop k bs), n + k) else none

abbrev pub parse_sized : Parser (List ℕ)
parse_sized bs = cut bs (parse_varint bs)

pub parse-sized_list :
    (l rest : List ℕ) → parse_sized (sized_list l ++ rest) ≡ some (l, length (sized_list l))
parse-sized_list l rest =
    ap (cut whole) parsed ∙ rw fits (ap₂ (λ t (n : ℕ). some (t, n)) cut_out (omega lengths))
  where
    whole : List ℕ
    whole = (varint (length l) ++ l) ++ rest

    assoc : whole ≡ varint (length l) ++ (l ++ rest)
    assoc = append_assoc (varint (length l)) l rest

    parsed : parse_varint whole ≡ some (length l, length (varint (length l)))
    parsed = ap parse_varint assoc ∙ parse-varint (length l) (l ++ rest)

    fits : leb (length l + length (varint (length l))) (length whole) ≡ true
    fits = le→leb _ _ (omega lengths)

    cut_out : take (length l) (drop (length (varint (length l))) whole) ≡ l
    cut_out =
        ap (λ t. take (length l) (drop (length (varint (length l))) t)) assoc
        ∙ ap (take (length l)) (drop-append (varint (length l)) (l ++ rest))
        ∙ take-append l rest

pub parse_sized_bounds :
    (bs l : List ℕ) (n : ℕ) → parse_sized bs ≡ some (l, n) → (0 < n) × (n ≤ length bs)
parse_sized_bounds bs l n h = elim (Option-cases (parse_varint bs)) [
  | inl e ↦ ground (arith, e)
  | inr ((w, m), e) ↦ ground (arith, e, parse_varint_bounds bs w m e)
]

abbrev pub zigzag : ℤ → ℕ
zigzag (ℤ.pos n) = 2 * n
zigzag (ℤ.negsuc n) = 2 * n + 1

abbrev pub unzigzag : ℕ → ℤ
unzigzag n = if n % 2 == 0 then ℤ.pos (n / 2) else ℤ.negsuc (n / 2)

pub unzigzag-zigzag : (z : ℤ) → unzigzag (zigzag z) ≡ z
unzigzag-zigzag (ℤ.pos n) = ground arith
unzigzag-zigzag (ℤ.negsuc n) = ground arith

abbrev convert : {A B : Type 0} → (A → B) → Option (A × ℕ) → Option (B × ℕ)
convert f none = none
convert f (some (a, n)) = some (f a, n)

abbrev pub parse_by : {B : Type 0} → (ℕ → B) → Parser B
parse_by f bs = convert f (parse_varint bs)

pub parse_by_bounds :
    {B : Type 0} (f : ℕ → B) (bs : List ℕ) (b : B) (n : ℕ)
    → parse_by f bs ≡ some (b, n)
    → (0 < n) × (n ≤ length bs)
parse_by_bounds f bs b n h = elim (Option-cases (parse_varint bs)) [
  | inl e ↦ ground (arith, e)
  | inr ((w, m), e) ↦ ground (arith, e, parse_varint_bounds bs w m e)
]

pub parse_by-varint :
    {B : Type 0} (f : ℕ → B) (v : ℕ) (rest : List ℕ)
    → parse_by f (varint v ++ rest) ≡ some (f v, length (varint v))
parse_by-varint f v rest = ap (convert f) (parse-varint v rest)
