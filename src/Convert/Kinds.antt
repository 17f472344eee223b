-- ===== src/Convert/Kinds.antt =====
-- The fields of `toObject` by their kind, a Long, a string or a sub-message: what `fromObject` reads back
-- of each, and that it passes `verify`.
use timemachine.Base.{
  ℕ, ◌≡◌, ◌≢◌, refl, ◌∙◌, List, [], Bool, false, Option, none, map_option, units, if◌then◌else◌,
  arith,
}
use timemachine.Protobuf.Outcome.{Text, ok}
use timemachine.Protobuf.Runtime.{IsLong}
use timemachine.Protobuf.Optional.{InOption}
use timemachine.JsValue.{Value, undefined, null, string}
use timemachine.Convert.{
  Longs, as_long, as_number, Options, Row, write_rows, verify_field, check_long, check_string,
  within, from_field, to_long, to_string, to_message, show_long,
}
use timemachine.Convert.Rows.{
  shown_over, with_default, shown_over-default, over_values, over_defaults, property_of-write_rows,
  has_row, has_own-write_rows,
}
use timemachine.Convert.Fields.{from_field-shown, from_field-shown_as, verify_field-shown}
use timemachine.Convert.Conversion.{
  Conversion, InOption-some, with_default-InOption, to_long-show_long, check_long-show_long,
  to_message-to_object, within-to_object, nil_default,
}

-- The rows of an object, and the key of one of them.
module _ (L : Longs) (options : Options) (key : Text) (rows : List Row) where
  abbrev d : Bool
  d = options.defaults

  -- What stands under the key.
  abbrev pub Holds : {A : Type 0} → (A → Value) → Option A → Value → Type 0
  Holds show o default =
      over_values key rows (over_defaults key rows undefined)
      ≡ shown_over show o (if d then default else undefined)

  pub from_field-long :
      (o : Option ℕ)
      → Holds (show_long L options) o (show_long L options 0)
      → options.longs ≢ as_number
      → InOption IsLong o
      → from_field key (to_long L) (Value.object (write_rows rows)) ≡ ok (with_default d 0 o)
  from_field-long o holds not_number valid =
      from_field-shown (show_long L options) key (to_long L) (with_default d 0 o) undefined _
        (property_of-write_rows key rows ∙ holds ∙ shown_over-default (show_long L options) d 0 o)
        refl
        (λ a e.
          to_long-show_long L options a not_number
            (InOption-some IsLong _ a (with_default-InOption IsLong d 0 o (omega arith) valid) e))

  pub from_field-string :
      (o : Option Text)
      → Holds string o (string [])
      → from_field key (to_string L) (Value.object (write_rows rows)) ≡ ok (with_default d [] o)
  from_field-string o holds =
      from_field-shown string key (to_string L) (with_default d [] o) undefined _
        (property_of-write_rows key rows ∙ holds ∙ shown_over-default string d [] o) refl
        (λ a e. (refl, refl))

  pub from_field-message :
      {M : Type 0} (C : Conversion M) (o : Option M)
      → Holds (λ m. C.to_object m options) o null
      → options.longs ≢ as_number
      → InOption C.IsValid o
      → from_field key (to_message C.from_object) (Value.object (write_rows rows))
        ≡ ok (map_option (C.filled d) o)
  from_field-message C o holds not_number valid =
      from_field-shown_as (λ m. C.to_object m options) (C.filled d) key (to_message C.from_object) o
        (if d then null else undefined) _ (property_of-write_rows key rows ∙ holds) (nil_default d)
        (λ a e. to_message-to_object C a options (InOption-some C.IsValid o a valid e) not_number)

  module _ (own : has_row (units "hasOwnProperty") rows ≡ false) where
    pub verify_field-long :
        (error : Text) (o : Option ℕ)
        → Holds (show_long L options) o (show_long L options 0)
        → options.longs ≡ as_long
        → verify_field key (check_long error) (Value.object (write_rows rows)) ≡ ok none
    verify_field-long error o holds longs =
        verify_field-shown (show_long L options) key (check_long error) (with_default d 0 o)
          undefined _
          (property_of-write_rows key rows ∙ holds ∙ shown_over-default (show_long L options) d 0 o)
          refl (has_own-write_rows _ rows own) (λ a e. check_long-show_long L error options a longs)

    pub verify_field-string :
        (error : Text) (o : Option Text)
        → Holds string o (string [])
        → verify_field key (check_string error) (Value.object (write_rows rows)) ≡ ok none
    verify_field-string error o holds =
        verify_field-shown string key (check_string error) (with_default d [] o) undefined _
          (property_of-write_rows key rows ∙ holds ∙ shown_over-default string d [] o) refl
          (has_own-write_rows _ rows own) (λ a e. refl)

    pub verify_field-message :
        {M : Type 0} (C : Conversion M) (prefix : Text) (o : Option M)
        → Holds (λ m. C.to_object m options) o null
        → options.longs ≡ as_long
        → verify_field key (λ v. within prefix (C.verify v)) (Value.object (write_rows rows))
          ≡ ok none
    verify_field-message C prefix o holds longs =
        verify_field-shown (λ m. C.to_object m options) key (λ v. within prefix (C.verify v)) o
          (if d then null else undefined) _ (property_of-write_rows key rows ∙ holds)
          (nil_default d) (has_own-write_rows _ rows own)
          (λ a e. within-to_object C prefix a options longs)
