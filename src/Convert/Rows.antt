-- ===== src/Convert/Rows.antt =====
-- What `toObject` leaves under each key of the object that it writes.
use timemachine.Base.{
  ◌≡◌, refl, sym, ap, ◌∙◌, List, [], ◌∷◌, Bool, true, false, ◌||◌, Option, none, some, Bool-cases,
  inl, inr, if◌then◌else◌,
}
use timemachine.Protobuf.Outcome.{Text}
use timemachine.JsObject.{text_eq}
use timemachine.JsValue.{
  Value, undefined, Properties, no_properties, property_of, has_own, set_property,
}
use timemachine.Convert.{Row, shown, put_default, put_defaults, put_value, put_values, write_rows}
use timemachine.Convert.Laws.{
  text_eq_to_eq, property_of-set_property, property_of-set_other, has_own-set_other,
}

-- A value over what stands there otherwise.
abbrev pub over : Option Value → Value → Value
over none rest = rest
over (some v) rest = v

abbrev pub shown_over : {A : Type 0} → (A → Value) → Option A → Value → Value
shown_over show o rest = over (shown show o) rest

-- A field that is not set takes its default, if the defaults are wanted.
abbrev pub with_default : {A : Type 0} → Bool → A → Option A → Option A
with_default true d none = some d
with_default true d (some a) = some a
with_default false d o = o

pub shown_over-default :
    {A : Type 0} (show : A → Value) (d : Bool) (a : A) (o : Option A)
    → shown_over show o (if d then show a else undefined)
      ≡ shown_over show (with_default d a o) undefined
shown_over-default show true a none = refl
shown_over-default show true a (some b) = refl
shown_over-default show false a o = refl

-- What stands under a key when the values of rows, or their defaults, have been put on it.
abbrev pub over_values : Text → List Row → Value → Value
over_values key [] v = v
over_values key (row ∷ rows) v =
    over_values key rows (if text_eq row.key key then over row.value v else v)

abbrev pub over_defaults : Text → List Row → Value → Value
over_defaults key [] v = v
over_defaults key (row ∷ rows) v =
    over_defaults key rows
      (if text_eq row.key key then (if row.wanted then row.default else v) else v)

put_at :
    (key k : Text) (v : Value) (ps : Properties)
    → property_of key (set_property k v ps) ≡ (if text_eq k key then v else property_of key ps)
put_at key k v ps = elim (Bool-cases (text_eq k key)) [
  | inl e ↦
      ap (λ t. property_of t (set_property k v ps)) (sym (text_eq_to_eq k key e))
      ∙ property_of-set_property k v ps
      ∙ ap (λ b. if b then v else property_of key ps) (sym e)
  | inr e ↦
      property_of-set_other key k v ps e ∙ ap (λ b. if b then v else property_of key ps) (sym e)
]

same : (b : Bool) (v : Value) → v ≡ (if b then v else v)
same true v = refl
same false v = refl

put_value_at :
    (key k : Text) (o : Option Value) (ps : Properties)
    → property_of key (put_value k o ps)
      ≡ (if text_eq k key then over o (property_of key ps) else property_of key ps)
put_value_at key k none ps = same (text_eq k key) (property_of key ps)
put_value_at key k (some v) ps = put_at key k v ps

put_default_at :
    (wanted : Bool) (key k : Text) (v : Value) (ps : Properties)
    → property_of key (if wanted then set_property k v ps else ps)
      ≡ (if text_eq k key then (if wanted then v else property_of key ps) else property_of key ps)
put_default_at true key k v ps = put_at key k v ps
put_default_at false key k v ps = same (text_eq k key) (property_of key ps)

put_values_at :
    (key : Text) (rows : List Row) (ps : Properties)
    → property_of key (put_values rows ps) ≡ over_values key rows (property_of key ps)
put_values_at key [] ps = refl
put_values_at key (row ∷ rows) ps =
    put_values_at key rows (put_value row.key row.value ps)
    ∙ ap (over_values key rows) (put_value_at key row.key row.value ps)

put_defaults_at :
    (key : Text) (rows : List Row) (ps : Properties)
    → property_of key (put_defaults rows ps) ≡ over_defaults key rows (property_of key ps)
put_defaults_at key [] ps = refl
put_defaults_at key (row ∷ rows) ps =
    put_defaults_at key rows (put_default row ps)
    ∙ ap (over_defaults key rows) (put_default_at row.wanted key row.key row.default ps)

-- The property of the object that is written.
pub property_of-write_rows :
    (key : Text) (rows : List Row)
    → property_of key (write_rows rows) ≡ over_values key rows (over_defaults key rows undefined)
unfolding write_rows
property_of-write_rows key rows =
    put_values_at key rows (put_defaults rows no_properties)
    ∙ ap (over_values key rows) (put_defaults_at key rows no_properties)

abbrev pub has_row : Text → List Row → Bool
has_row key [] = false
has_row key (row ∷ rows) = text_eq row.key key || has_row key rows

or_false : (a b : Bool) → (a || b) ≡ false → (a ≡ false) × (b ≡ false)
or_false true b h = cc
or_false false b h = (refl, h)

value_apart :
    (key k : Text) (o : Option Value) (ps : Properties)
    → text_eq k key ≡ false
    → has_own key (put_value k o ps) ≡ has_own key ps
value_apart key k none ps h = refl
value_apart key k (some v) ps h = has_own-set_other key k v ps h

values_apart :
    (key : Text) (rows : List Row) (ps : Properties)
    → has_row key rows ≡ false
    → has_own key (put_values rows ps) ≡ has_own key ps
values_apart key [] ps h = refl
values_apart key (row ∷ rows) ps h =
    let (p, q) = or_false (text_eq row.key key) (has_row key rows) h in
    values_apart key rows (put_value row.key row.value ps) q
    ∙ value_apart key row.key row.value ps p

default_apart :
    (wanted : Bool) (key k : Text) (v : Value) (ps : Properties)
    → text_eq k key ≡ false
    → has_own key (if wanted then set_property k v ps else ps) ≡ has_own key ps
default_apart true key k v ps h = has_own-set_other key k v ps h
default_apart false key k v ps h = refl

defaults_apart :
    (key : Text) (rows : List Row) (ps : Properties)
    → has_row key rows ≡ false
    → has_own key (put_defaults rows ps) ≡ has_own key ps
defaults_apart key [] ps h = refl
defaults_apart key (row ∷ rows) ps h =
    let (p, q) = or_false (text_eq row.key key) (has_row key rows) h in
    defaults_apart key rows (put_default row ps) q
    ∙ default_apart row.wanted key row.key row.default ps p

-- A key of no row is none of the object that is written.
pub has_own-write_rows :
    (key : Text) (rows : List Row)
    → has_row key rows ≡ false
    → has_own key (write_rows rows) ≡ false
unfolding write_rows
has_own-write_rows key rows h =
    values_apart key rows (put_defaults rows no_properties) h
    ∙ defaults_apart key rows no_properties h
