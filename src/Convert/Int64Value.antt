-- ===== src/Convert/Int64Value.antt =====
-- `verify`, `fromObject`, `toObject` and `toJSON` of `google.protobuf.Int64Value` in
-- tsclient/recstore-ts/src/compiled.js.
use timemachine.Base.{◌≡◌, ◌≢◌, refl, List, [], ◌∷◌, Bool, true, false, Option, none, units}
use timemachine.Protobuf.Outcome.{Text, Result, ok, ◌>>=◌, >>=-step}
use timemachine.JsValue.{Value, is_nil, is_object_type}
use timemachine.Convert.{
  Longs, as_long, as_number, Options, to_json_options, Given, instance_of, plain, Row, shown,
  write_rows, verify_object, verify_field, check_long, from_field, to_long, show_long,
}
use timemachine.Convert.Rows.{with_default}
use timemachine.Convert.Kinds.{from_field-long, verify_field-long}
use timemachine.Convert.Fields.{from_field-verified}
use timemachine.Convert.Conversion.{Conversion, verify_object-none, to_long-checked}
use timemachine.Wrapper.Int64Value
use timemachine.Wrapper.Int64Value.{Int64Value}

unfoldable pub verify : Value → Result (Option Text)
verify message =
    verify_object message
      (verify_field (units "value") (check_long (units "value: integer|Long expected")) message)

-- The message with its defaults as own properties, if they are wanted.
abbrev pub filled : Bool → Int64Value → Int64Value
filled d message = record { value = with_default d 0 message.value }

module _ (L : Longs) where
  unfoldable pub from_object : Given Int64Value → Result Int64Value
  from_object (instance_of message) = ok message
  from_object (plain obj) = do
    x_value ← from_field (units "value") (to_long L) obj
    ok (record { value = x_value })

  -- The fields in their order, each with its default.
  abbrev rows : Int64Value → Options → List Row
  rows message options =
      record {
        key = units "value";
        wanted = options.defaults;
        default = show_long L options 0;
        value = shown (show_long L options) message.value;
      }
      ∷ []

  unfoldable pub to_object : Int64Value → Options → Value
  to_object message options = Value.object (write_rows (rows message options))

  abbrev pub to_json : Int64Value → Value
  to_json message = to_object message to_json_options

  -- What is shown is read back.
  pub from_object-to_object :
      (message : Int64Value) (options : Options)
      → Int64Value.IsValid message
      → options.longs ≢ as_number
      → from_object (plain (to_object message options)) ≡ ok (filled options.defaults message)
  unfolding from_object to_object
  from_object-to_object message options valid not_number =
      >>=-step _ (with_default options.defaults 0 message.value)
        (from_field-long L options (units "value") (rows message options) message.value refl
          not_number valid)
        refl

  pub verify-to_object :
      (message : Int64Value) (options : Options)
      → options.longs ≡ as_long
      → verify (to_object message options) ≡ ok none
  unfolding verify to_object
  verify-to_object message options longs =
      verify_field-long L options (units "value") (rows message options) refl
        (units "value: integer|Long expected") message.value refl longs

  pub verify-from_object :
      (v : Value)
      → verify v ≡ ok none
      → (message : Int64Value) × (from_object (plain v) ≡ ok message)
  unfolding verify from_object
  verify-from_object v h =
      let (ob, there, h₁) = verify_object-none v _ h in
      let (o₁, e₁) =
        from_field-verified (units "value") (check_long (units "value: integer|Long expected"))
          (to_long L) v there h₁
          (λ w. to_long-checked L (units "value: integer|Long expected") w) in
      (record { value = o₁ }, >>=-step _ o₁ e₁ (refl))

  pub to_object-IsObject :
      (message : Int64Value) (options : Options)
      → (is_object_type (to_object message options) ≡ true)
        × (is_nil (to_object message options) ≡ false)
  unfolding to_object
  to_object-IsObject message options = (refl, refl)

  pub verify-IsObject :
      (v : Value) → verify v ≡ ok none → (is_object_type v ≡ true) × (is_nil v ≡ false)
  unfolding verify
  verify-IsObject v h = let (ob, there, fields) = verify_object-none v _ h in (ob, there)

  abbrev pub conversion : Conversion Int64Value
  conversion = record {
    IsValid = Int64Value.IsValid;
    verify = verify;
    from_object = from_object;
    to_object = to_object;
    filled = filled;
    to_object-IsObject = to_object-IsObject;
    from_object-to_object = from_object-to_object;
    verify-to_object = verify-to_object;
    verify-IsObject = verify-IsObject;
    verify-from_object = verify-from_object;
  }
