-- ===== src/Convert/Arrays.antt =====
-- Repeated fields and booleans in `verify`, `fromObject` and `toObject` of the messages in
-- tsclient/recstore-ts/src/compiled.js.
use timemachine.Base.{
  ◌%◌, ◌^◌, ◌≡◌, refl, ap, ap₂, ◌∙◌, ℤ, List, [], ◌∷◌, map, Bool, true, false, Option, none, some,
  leb, ◌==◌, All, units, if◌then◌else◌,
}
use timemachine.Protobuf.Outcome.{Text, Result, ok, throw, type_error, ◌>>=◌, >>=-step}
use timemachine.JsValue.{
  Value, undefined, null, array, Items, no_items, item, is_nil, is_boolean, member, get,
}
use timemachine.Convert.{Row, write_rows, first_error, verify_field}
use timemachine.Convert.Rows.{
  over, shown_over, over_values, over_defaults, property_of-write_rows, has_row, has_own-write_rows,
}
use timemachine.Convert.Fields.{verify_field-shown, verify_field_sound, get-member}
use timemachine.Convert.Conversion.{first_error-none}

-- `Boolean(value)`: zero, NaN, the empty string and nothing are false.
abbrev pub truthy : Value → Bool
truthy undefined = false
truthy null = false
truthy (Value.boolean b) = b
truthy (Value.integer (ℤ.pos n)) = if n == 0 then false else true
truthy (Value.integer (ℤ.negsuc n)) = true
truthy (Value.double bits) = leb (bits % 2 ^ 63) 0x7ff0000000000000
truthy (Value.string []) = false
truthy (Value.string (u ∷ us)) = true
truthy _ = true

-- `if (typeof x !== "boolean") return error`
abbrev pub check_boolean : Text → Value → Result (Option Text)
check_boolean error v = if is_boolean v then ok none else ok (some error)

-- `Boolean(x)`
abbrev pub to_boolean : Value → Result Bool
to_boolean v = ok (truthy v)

-- `for (var i = 0; i < xs.length; ++i) { var error = …; if (error) return …; }`
abbrev pub check_items : (Value → Result (Option Text)) → Items → Result (Option Text)
check_items check no_items = ok none
check_items check (item v vs) = first_error (check v) (check_items check vs)

-- `if (!Array.isArray(xs)) return error;` and the loop.
abbrev pub check_array : Text → (Value → Result (Option Text)) → Value → Result (Option Text)
check_array error check (array vs) = check_items check vs
check_array error check _ = ok (some error)

abbrev pub from_items : {A : Type 0} → (Value → Result A) → Items → Result (List A)
from_items convert no_items = ok []
from_items convert (item v vs) = convert v >>= λ a. from_items convert vs >>= λ l. ok (a ∷ l)

-- `if (!Array.isArray(xs)) throw TypeError(…);` and the loop.
abbrev pub to_array : {A : Type 0} → (Value → Result A) → Value → Result (List A)
to_array convert (array vs) = from_items convert vs
to_array convert _ = throw (type_error [])

-- `if (object.xs) { message.xs = []; … }`
unfoldable pub from_list : {A : Type 0} → Text → (Value → Result A) → Value → Result (List A)
from_list key convert obj = get key obj >>= λ v. if truthy v then to_array convert v else ok []

abbrev pub show_items : {A : Type 0} → (A → Value) → List A → Items
show_items show [] = no_items
show_items show (a ∷ l) = item (show a) (show_items show l)

-- `if (message.xs && message.xs.length) { object.xs = []; … }`
abbrev pub show_list : {A : Type 0} → (A → Value) → List A → Option Value
show_list show [] = none
show_list show (a ∷ l) = some (array (show_items show (a ∷ l)))

-- The field as it stands in the object: an empty one is there if the options want it.
abbrev listed : {A : Type 0} → Bool → List A → Option (List A)
listed true [] = some []
listed false [] = none
listed wanted (a ∷ l) = some (a ∷ l)

module _ {A : Type 0} (show : A → Value) where
  shown_list :
      (wanted : Bool) (l : List A)
      → over (show_list show l) (if wanted then array no_items else undefined)
        ≡ shown_over (λ l'. array (show_items show l')) (listed wanted l) undefined
  shown_list true [] = refl
  shown_list false [] = refl
  shown_list true (a ∷ l) = refl
  shown_list false (a ∷ l) = refl

  from_items-shown :
      {B : Type 0} (g : A → B) (convert : Value → Result B) (P : A → Type 0) (l : List A)
      → All P l
      → ((a : A) → P a → convert (show a) ≡ ok (g a))
      → from_items convert (show_items show l) ≡ ok (map g l)
  from_items-shown g convert P [] valid back = refl
  from_items-shown g convert P (a ∷ l) (v, vs) back =
      >>=-step _ (g a) (back a v)
        (>>=-step _ (map g l) (from_items-shown g convert P l vs back) refl)

  check_items-shown :
      (check : Value → Result (Option Text)) (l : List A)
      → ((a : A) → check (show a) ≡ ok none)
      → check_items check (show_items show l) ≡ ok none
  check_items-shown check [] passes = refl
  check_items-shown check (a ∷ l) passes =
      ap₂ first_error (passes a) (check_items-shown check l passes)

  module _ (key : Text) (rows : List Row) (wanted : Bool) (l : List A)
      (holds : over_values key rows (over_defaults key rows undefined)
        ≡ over (show_list show l) (if wanted then array no_items else undefined)) where
    -- A repeated field that is shown is read back.
    pub from_list-shown :
        {B : Type 0} (g : A → B) (convert : Value → Result B) (P : A → Type 0)
        → All P l
        → ((a : A) → P a → convert (show a) ≡ ok (g a))
        → from_list key convert (Value.object (write_rows rows)) ≡ ok (map g l)
    unfolding from_list get
    from_list-shown g convert P valid back =
        ap (λ v. if truthy v then to_array convert v else ok [])
          (property_of-write_rows key rows ∙ holds)
        ∙ by_cases l wanted valid
      where
        by_cases :
            (l' : List A) (w : Bool)
            → All P l'
            → let v = over (show_list show l') (if w then array no_items else undefined) in
              (if truthy v then to_array convert v else ok []) ≡ ok (map g l')
        by_cases [] true valid' = refl
        by_cases [] false valid' = refl
        by_cases (a ∷ l') w valid' = from_items-shown g convert P (a ∷ l') valid' back

    -- It passes its check.
    pub verify_field-list :
        (error : Text) (check : Value → Result (Option Text))
        → has_row (units "hasOwnProperty") rows ≡ false
        → ((a : A) → check (show a) ≡ ok none)
        → verify_field key (check_array error check) (Value.object (write_rows rows)) ≡ ok none
    verify_field-list error check own passes =
        verify_field-shown (λ l'. array (show_items show l')) key (check_array error check)
          (listed wanted l) undefined _
          (property_of-write_rows key rows ∙ holds ∙ shown_list wanted l) refl
          (has_own-write_rows _ rows own) (λ l' e. check_items-shown check l' passes)

from_items-checked :
    {A : Type 0} (check : Value → Result (Option Text)) (convert : Value → Result A) (vs : Items)
    → ((w : Value) → check w ≡ ok none → (a : A) × (convert w ≡ ok a))
    → check_items check vs ≡ ok none
    → (l : List A) × (from_items convert vs ≡ ok l)
from_items-checked check convert no_items returns h = ([], refl)
from_items-checked check convert (item v vs) returns h =
    let (p, q) = first_error-none (check v) (check_items check vs) h in
    let (a, e) = returns v p in
    let (l, k) = from_items-checked check convert vs returns q in
    (a ∷ l, >>=-step _ a e (>>=-step _ l k refl))

abbrev read_list : {A : Type 0} → (Value → Result A) → Value → Result (List A)
read_list convert w = if truthy w then to_array convert w else ok []

read_list-checked :
    {A : Type 0} (error : Text) (check : Value → Result (Option Text)) (convert : Value → Result A)
    → (w : Value) → ((u : Value) → check u ≡ ok none → (a : A) × (convert u ≡ ok a))
    → (is_nil w ≡ false → check_array error check w ≡ ok none)
    → (l : List A) × (read_list convert w ≡ ok l)
read_list-checked error check convert undefined returns h = ([], refl)
read_list-checked error check convert null returns h = ([], refl)
read_list-checked error check convert (array vs) returns h =
    from_items-checked check convert vs returns (h refl)
read_list-checked error check convert (Value.boolean b) returns h = absurd (cc (h refl))
read_list-checked error check convert (Value.integer z) returns h = absurd (cc (h refl))
read_list-checked error check convert (Value.double b) returns h = absurd (cc (h refl))
read_list-checked error check convert (Value.string t) returns h = absurd (cc (h refl))
read_list-checked error check convert (Value.long b) returns h = absurd (cc (h refl))
read_list-checked error check convert (Value.buffer b) returns h = absurd (cc (h refl))
read_list-checked error check convert (Value.object ps) returns h = absurd (cc (h refl))

-- A repeated field that passes its check is converted.
pub from_list-verified :
    {A : Type 0} (key error : Text) (check : Value → Result (Option Text))
    (convert : Value → Result A)
    → (v : Value) → is_nil v ≡ false
    → verify_field key (check_array error check) v ≡ ok none
    → ((w : Value) → check w ≡ ok none → (a : A) × (convert w ≡ ok a))
    → (l : List A) × (from_list key convert v ≡ ok l)
unfolding from_list
from_list-verified key error check convert v there passes returns =
    let (l, e) =
      read_list-checked error check convert (member key v) returns
        (verify_field_sound key (check_array error check) v passes) in
    (l, >>=-step _ (member key v) (get-member key v there) e)

-- What passes its check as a boolean is converted.
pub to_boolean-checked :
    (error : Text) (v : Value)
    → check_boolean error v ≡ ok none
    → (b : Bool) × (to_boolean v ≡ ok b)
to_boolean-checked error v h = (truthy v, refl)
