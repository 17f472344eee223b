-- ===== src/Convert/Fields.antt =====
-- One field of an object: what `toObject` puts there is read back by `fromObject` and passes `verify`,
-- and what passes `verify` is converted by `fromObject`.
use timemachine.Base.{
  ◌≡◌, refl, ap, ◌∙◌, [], Bool, true, false, Option, none, some, map_option, Bool-cases, inl, inr,
  arith, if◌then◌else◌, units,
}
use timemachine.Protobuf.Outcome.{Text, Result, ok, throw, type_error, ◌>>=◌, >>=-step}
use timemachine.JsValue.{
  Value, undefined, null, Properties, no_properties, property, property_of, has_own, is_nil, member,
  get,
}
use timemachine.Convert.{from_field, verify_field}
use timemachine.Convert.Rows.{shown_over}

abbrev passed : Result (Option Text)
passed = ok none

either : (b : Bool) → (if b then passed else passed) ≡ passed
either true = refl
either false = refl

map_id : {A : Type 0} (o : Option A) → map_option (λ a. a) o ≡ o
map_id none = refl
map_id (some a) = refl

module _ {A : Type 0} (show : A → Value) where
  -- What is shown and read back with a change, as a sub-message with its defaults is.
  pub from_field-shown_as :
      {B : Type 0} (g : A → B) (key : Text) (convert : Value → Result B) (o : Option A)
      → (rest : Value) (ps : Properties) → property_of key ps ≡ shown_over show o rest
      → is_nil rest ≡ true
      → ((a : A) → o ≡ some a → (is_nil (show a) ≡ false) × (convert (show a) ≡ ok (g a)))
      → from_field key convert (Value.object ps) ≡ ok (map_option g o)
  unfolding from_field get
  from_field-shown_as g key convert o rest ps h nil back =
      ap (λ v. if is_nil v then ok none else (convert v >>= λ a. ok (some a))) h ∙ by_cases o back
    where
      by_cases :
          (o' : Option A)
          → ((a : A) → o' ≡ some a → (is_nil (show a) ≡ false) × (convert (show a) ≡ ok (g a)))
          → (if is_nil (shown_over show o' rest)
              then ok none
              else (convert (shown_over show o' rest) >>= λ a. ok (some a)))
            ≡ ok (map_option g o')
      by_cases none back' = ap (λ b. if b then ok none else (convert rest >>= λ a. ok (some a))) nil
      by_cases (some a) back' =
          let (full, e) = back' a refl in
          ap (λ b. if b then ok none else (convert (show a) >>= λ a'. ok (some a'))) full
          ∙ >>=-step _ (g a) e refl

  -- What is shown is read back.
  pub from_field-shown :
      (key : Text) (convert : Value → Result A) (o : Option A) (rest : Value) (ps : Properties)
      → property_of key ps ≡ shown_over show o rest
      → is_nil rest ≡ true
      → ((a : A) → o ≡ some a → (is_nil (show a) ≡ false) × (convert (show a) ≡ ok a))
      → from_field key convert (Value.object ps) ≡ ok o
  unfolding from_field get
  from_field-shown key convert o rest ps h nil back =
      from_field-shown_as (λ a. a) key convert o rest ps h nil back ∙ ap ok (map_id o)

  -- What is shown passes its check.
  pub verify_field-shown :
      (key : Text) (check : Value → Result (Option Text)) (o : Option A) (rest : Value)
      (ps : Properties)
      → property_of key ps ≡ shown_over show o rest
      → is_nil rest ≡ true
      → has_own (units "hasOwnProperty") ps ≡ false
      → ((a : A) → o ≡ some a → check (show a) ≡ ok none)
      → verify_field key check (Value.object ps) ≡ ok none
  unfolding verify_field
  verify_field-shown key check o rest ps h nil plain passes =
      ap
        (λ b.
          if is_nil (property_of key ps)
          then ok none
          else ((if b then throw (type_error []) else ok (has_own key ps)) >>= λ own.
              if own then check (property_of key ps) else ok none))
        plain
      ∙ ap (λ v. if is_nil v then ok none else (if has_own key ps then check v else ok none)) h
      ∙ by_cases o (has_own key ps) passes
    where
      by_cases :
          (o' : Option A) (own : Bool)
          → ((a : A) → o' ≡ some a → check (show a) ≡ ok none)
          → (if is_nil (shown_over show o' rest)
              then ok none
              else (if own then check (shown_over show o' rest) else ok none))
            ≡ ok none
      by_cases none own passes' =
          ap (λ b. if b then ok none else (if own then check rest else ok none)) nil
      by_cases (some a) true passes' =
          ap (λ x. if is_nil (show a) then ok none else x) (passes' a refl)
          ∙ either (is_nil (show a))
      by_cases (some a) false passes' = either (is_nil (show a))

-- A field that is not there is read as `undefined`.
property_of-missing :
    (key : Text) (ps : Properties) → has_own key ps ≡ false → is_nil (property_of key ps) ≡ true
property_of-missing key no_properties h = refl
property_of-missing key (property k v rest) h = ground (arith, property_of-missing key rest)

sound_cases :
    (nil shadow own : Bool) (x : Result (Option Text))
    → nil ≡ false
    → (own ≡ false → nil ≡ true)
    → (if nil
        then passed
        else ((if shadow then throw (type_error []) else ok own) >>= λ o. if o then x else passed))
      ≡ passed
    → x ≡ passed
sound_cases true shadow own x full missing h = cc
sound_cases false true own x full missing h = cc
sound_cases false false true x full missing h = h
sound_cases false false false x full missing h = absurd (cc (missing refl))

-- A field that passes its check and is not null satisfies it.
pub verify_field_sound :
    (key : Text) (check : Value → Result (Option Text)) (v : Value)
    → verify_field key check v ≡ ok none
    → is_nil (member key v) ≡ false
    → check (member key v) ≡ ok none
unfolding verify_field
verify_field_sound key check (Value.object ps) h full =
    sound_cases (is_nil (property_of key ps)) (has_own (units "hasOwnProperty") ps) (has_own key ps)
      (check (property_of key ps)) full (property_of-missing key ps) h
verify_field_sound key check undefined h full = cc
verify_field_sound key check null h full = cc
verify_field_sound key check (Value.boolean b) h full = cc
verify_field_sound key check (Value.integer z) h full = cc
verify_field_sound key check (Value.double b) h full = cc
verify_field_sound key check (Value.string t) h full = cc
verify_field_sound key check (Value.long b) h full = cc
verify_field_sound key check (Value.buffer b) h full = cc
verify_field_sound key check (Value.array vs) h full = cc

pub get-member : (key : Text) (v : Value) → is_nil v ≡ false → get key v ≡ ok (member key v)
unfolding get
get-member key undefined h = cc
get-member key null h = cc
get-member key (Value.boolean b) h = refl
get-member key (Value.integer z) h = refl
get-member key (Value.double b) h = refl
get-member key (Value.string t) h = refl
get-member key (Value.long b) h = refl
get-member key (Value.buffer b) h = refl
get-member key (Value.array vs) h = refl
get-member key (Value.object ps) h = refl

-- A field that passes a check is converted, if the conversion returns on all that passes it.
pub from_field-verified :
    {A : Type 0} (key : Text) (check : Value → Result (Option Text)) (convert : Value → Result A)
    → (v : Value) → is_nil v ≡ false
    → verify_field key check v ≡ ok none
    → ((w : Value) → check w ≡ ok none → (a : A) × (convert w ≡ ok a))
    → (o : Option A) × (from_field key convert v ≡ ok o)
unfolding from_field
from_field-verified key check convert v full passes returns =
    elim (Bool-cases (is_nil (member key v))) [
      | inl nil ↦ (
        none,
        >>=-step _ (member key v) (get-member key v full)
            (ap (λ b. if b then ok none else (convert (member key v) >>= λ a. ok (some a))) nil),
      )
      | inr there ↦
          let (a, e) = returns (member key v) (verify_field_sound key check v passes there) in
          (
            some a,
            >>=-step _ (member key v) (get-member key v full) (
                ap (λ b. if b then ok none else (convert (member key v) >>= λ a'. ok (some a')))
                  there
                ∙ >>=-step _ a e refl),
          )
    ]

apart : {b : Bool} → b ≡ true → b ≡ false → ⊥
apart h k = cc

-- A property that is not null is an own one.
has_own-there :
    (key : Text) (ps : Properties) → is_nil (property_of key ps) ≡ false → has_own key ps ≡ true
has_own-there key ps there = elim (Bool-cases (has_own key ps)) [
  | inl own ↦ own
  | inr missing ↦ absurd (apart (property_of-missing key ps missing) there)
]

-- The check of a field that is there, and of one that is not.
verify_field-there :
    (key : Text) (check : Value → Result (Option Text)) (ps : Properties)
    → is_nil (property_of key ps) ≡ false
    → has_own (units "hasOwnProperty") ps ≡ false
    → verify_field key check (Value.object ps) ≡ check (property_of key ps)
unfolding verify_field
verify_field-there key check ps there plain =
    ap
      (λ b.
        if b
        then ok none
        else ((if has_own (units "hasOwnProperty") ps
              then throw (type_error [])
              else ok (has_own key ps))
            >>= λ own. if own then check (property_of key ps) else ok none))
      there
    ∙ ap
        (λ b. (if b then throw (type_error []) else ok (has_own key ps)) >>= λ own.
          if own then check (property_of key ps) else ok none)
        plain
    ∙ ap (λ b. if b then check (property_of key ps) else ok none) (has_own-there key ps there)

verify_field-missing :
    (key : Text) (check : Value → Result (Option Text)) (ps : Properties)
    → is_nil (property_of key ps) ≡ true
    → verify_field key check (Value.object ps) ≡ ok none
unfolding verify_field
verify_field-missing key check ps missing =
    ap
      (λ b.
        if b
        then ok none
        else ((if has_own (units "hasOwnProperty") ps
              then throw (type_error [])
              else ok (has_own key ps))
            >>= λ own. if own then check (property_of key ps) else ok none))
      missing
