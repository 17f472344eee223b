-- ===== src/Sample/Runtime.antt =====
-- The operations on the formats of Sample/Format.antt, and that they keep every promise.
use timemachine.Base.{
  ℕ, ◌≤◌, ◌<◌, ◌≡◌, refl, sym, ap, ◌∙◌, ℤ, List, [], ◌∷◌, ◌++◌, Bool, true, false, Option, none,
  some, length, drop, length-drop, arith, ◌==◌, if◌then◌else◌, Option-cases, inl, inr,
}
use timemachine.Protobuf.Runtime.{
  Runtime, Scalar, Reader, Buffers, At, advance, append_bytes, IsUint32, Payload, varint_value,
  long_varint, fixed64_value, sized_value, fixed32_value,
}
use timemachine.Sample.Format.{
  Parser, varint, varint_small, parse_varint, parse-varint, parse-long_varint, parse_varint_bounds,
  sized_list, parse_sized, parse-sized_list, parse_sized_bounds, zigzag, unzigzag, unzigzag-zigzag,
  parse_by, parse_by_bounds, parse_by-varint,
}

abbrev moved_by : {A : Type 0} → Reader → Option (A × ℕ) → Option (A × Reader)
moved_by r none = none
moved_by r (some (a, n)) = some (a, advance r n)

abbrev read_by : {A : Type 0} → Parser A → Reader → Option (A × Reader)
read_by parse r = moved_by r (parse (drop r.pos r.buf))

module _ {A : Type 0} {InRange : A → Type 0} (wire : A → List ℕ) (parse : Parser A)
    (parse-wire : (a : A) (rest : List ℕ)
      → InRange a
      → parse (wire a ++ rest) ≡ some (a, length (wire a)))
    (bounds : (bs : List ℕ) (a : A) (n : ℕ)
      → parse bs ≡ some (a, n)
      → (0 < n) × (n ≤ length bs)) where
  pub read-wire :
      (r : Reader) (a : A) (rest : List ℕ)
      → InRange a
      → At r (wire a ++ rest)
      → read_by parse r ≡ some (a, advance r (length (wire a)))
  read-wire r a rest valid at = ap (moved_by r) (ap parse at ∙ parse-wire a rest valid)

  pub read-forward :
      (r r' : Reader) (a : A)
      → read_by parse r ≡ some (a, r')
      → (r'.buf ≡ r.buf) × (r.pos < r'.pos) × (r'.pos ≤ length r.buf)
  read-forward r r' a h = elim (Option-cases (parse (drop r.pos r.buf))) [
    | inl e ↦ ground (arith, e)
    | inr ((b, n), e) ↦ ground (arith, e, bounds (drop r.pos r.buf) b n e, length-drop r.pos r.buf)
  ]

  abbrev scalar : Scalar Buffers (λ b. b) A InRange
  scalar = record {
    put = λ b a. append_bytes b (wire a);
    read = read_by parse;
    wire = wire;
    put-buffers = λ b a valid. refl;
    read-wire = read-wire;
    read-forward = read-forward;
  }

abbrev code_bool : Bool → ℕ
code_bool true = 1
code_bool false = 0

pub decode-code_bool : (b : Bool) → (code_bool b == 1) ≡ b
decode-code_bool true = refl
decode-code_bool false = refl

abbrev number : {InRange : ℕ → Type 0} → Scalar Buffers (λ b. b) ℕ InRange
number = scalar varint parse_varint (λ a rest valid. parse-varint a rest) parse_varint_bounds

abbrev signed : {InRange : ℤ → Type 0} → Scalar Buffers (λ b. b) ℤ InRange
signed =
    scalar (λ z. varint (zigzag z)) (parse_by unzigzag)
      (λ z rest valid.
        parse_by-varint unzigzag (zigzag z) rest
        ∙ ap (λ y. some (y, length (varint (zigzag z)))) (unzigzag-zigzag z))
      (parse_by_bounds unzigzag)

abbrev boolean : {InRange : Bool → Type 0} → Scalar Buffers (λ b. b) Bool InRange
boolean =
    scalar (λ b. varint (code_bool b)) (parse_by (λ n. n == 1))
      (λ b rest valid.
        parse_by-varint (λ n. n == 1) (code_bool b) rest
        ∙ ap (λ y. some (y, length (varint (code_bool b)))) (decode-code_bool b))
      (parse_by_bounds (λ n. n == 1))

abbrev list : {InRange : List ℕ → Type 0} → Scalar Buffers (λ b. b) (List ℕ) InRange
list = scalar sized_list parse_sized (λ l rest valid. parse-sized_list l rest) parse_sized_bounds

-- `ldelim`, by what is set aside.
ldelim_onto : List ℕ → List (List ℕ) → Buffers
ldelim_onto inner [] = record { written = sized_list inner; saved = [] }
ldelim_onto inner (outer ∷ more) = record { written = outer ++ sized_list inner; saved = more }

unfoldable pub ldelim : Buffers → Buffers
unfolding ldelim_onto
ldelim b = ldelim_onto b.written b.saved

abbrev only_reader : {A : Type 0} → Option (A × Reader) → Option Reader
only_reader none = none
only_reader (some (a, r)) = some r

unfoldable pub skip_by : {A : Type 0} → Parser A → Reader → Option Reader
skip_by parse r = only_reader (read_by parse r)

-- `skipType`
unfoldable pub skip_type : ℕ → Reader → Option Reader
unfolding skip_by
skip_type wire_type r =
    if wire_type == 0
    then skip_by parse_varint r
    else if wire_type == 1
    then some (advance r 8)
    else if wire_type == 2
    then skip_by parse_sized r
    else if wire_type == 5
    then some (advance r 4)
    else none

pub skip_by-forward :
    {A : Type 0} (parse : Parser A) (r r' : Reader)
    → skip_by parse r ≡ some r'
    → (r'.buf ≡ r.buf) × (r.pos ≤ r'.pos)
unfolding skip_by
skip_by-forward parse r r' h = elim (Option-cases (parse (drop r.pos r.buf))) [
  | inl e ↦ ground (arith, e)
  | inr ((b, n), e) ↦ ground (arith, e)
]

pub skip_type-forward :
    (wire_type : ℕ) (r r' : Reader)
    → skip_type wire_type r ≡ some r'
    → (r'.buf ≡ r.buf) × (r.pos ≤ r'.pos)
unfolding skip_by
skip_type-forward wire_type r r' h =
    unfold skip_type in
    ground (arith, skip_by-forward parse_varint r r', skip_by-forward parse_sized r r')

pub skip_type-Payload :
    (wire_type : ℕ) (payload : List ℕ) (r : Reader) (rest : List ℕ)
    → Payload varint wire_type payload
    → At r (payload ++ rest)
    → skip_type wire_type r ≡ some (advance r (length payload))
unfolding skip_type
skip_type-Payload _ _ r rest (varint_value n small) at =
    ap (λ bs. only_reader (moved_by r (parse_varint bs))) at
    ∙ ap (λ o. only_reader (moved_by r o)) (parse-varint n rest)
skip_type-Payload _ _ r rest (long_varint front last high short low) at =
    ap (λ bs. only_reader (moved_by r (parse_varint bs))) at
    ∙ ap (λ o. only_reader (moved_by r o)) (parse-long_varint front last rest high low).1
skip_type-Payload _ _ r rest (sized_value bytes small) at =
    ap (λ bs. only_reader (moved_by r (parse_sized bs))) at
    ∙ ap (λ o. only_reader (moved_by r o)) (parse-sized_list bytes rest)
skip_type-Payload _ _ r rest (fixed64_value bytes eight) at =
    ap (λ (n : ℕ). some (advance r n)) (sym eight)
skip_type-Payload _ _ r rest (fixed32_value bytes four) at =
    ap (λ (n : ℕ). some (advance r n)) (sym four)

pub ldelim-buffers :
    (w : Buffers) (inner outer : List ℕ) (more : List (List ℕ))
    → w ≡ record { written = inner; saved = outer ∷ more }
    → IsUint32 (length inner)
    → ldelim w ≡ record { written = outer ++ (varint (length inner) ++ inner); saved = more }
unfolding ldelim
ldelim-buffers w inner outer more h small = ap ldelim h

pub ldelim_reset :
    (w : Buffers) (inner : List ℕ)
    → w ≡ record { written = inner; saved = [] }
    → IsUint32 (length inner)
    → ldelim w ≡ record { written = varint (length inner) ++ inner; saved = [] }
unfolding ldelim
ldelim_reset w inner h small = ap ldelim h

pub skip-varint :
    (r : Reader) (n : ℕ) (rest : List ℕ)
    → IsUint32 n
    → At r (varint n ++ rest)
    → skip_by parse_varint r ≡ some (advance r (length (varint n)))
unfolding skip_by
skip-varint r n rest small at =
    ap (λ bs. only_reader (moved_by r (parse_varint bs))) at
    ∙ ap (λ o. only_reader (moved_by r o)) (parse-varint n rest)

-- The runtime.
abbrev pub runtime : Runtime
runtime = record {
  Writer = Buffers;
  buffers = λ b. b;
  create_writer = record { written = []; saved = [] };
  create_reader = λ b. record { buf = b; pos = 0 };
  fork = λ b. record { written = []; saved = b.written ∷ b.saved };
  ldelim = ldelim;
  uint32 = number;
  int64 = number;
  uint64 = number;
  int32 = signed;
  float = number;
  double = number;
  bool = boolean;
  string = list;
  bytes = list;
  skip = skip_by parse_varint;
  skip_type = skip_type;
  create_writer-buffers = refl;
  create_reader_lem = λ b. refl;
  wire_small = varint_small;
  fork-buffers = λ w. refl;
  ldelim-buffers = ldelim-buffers;
  ldelim_reset = ldelim_reset;
  skip-varint = skip-varint;
  skip-forward = skip_by-forward parse_varint;
  skip_type-Payload = skip_type-Payload;
  skip_type-forward = skip_type-forward;
}
