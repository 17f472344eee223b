-- ===== src/Convert/Dim.antt =====
-- `verify`, `fromObject`, `toObject` and `toJSON` of `hydrosphere.tensorflow.TensorShapeProto.Dim` in
-- tsclient/recstore-ts/src/compiled.js.
use timemachine.Base.{◌≡◌, ◌≢◌, refl, ap₂, List, [], ◌∷◌, Bool, true, false, Option, none, units}
use timemachine.Protobuf.Outcome.{Text, Result, ok, ◌>>=◌, >>=-step}
use timemachine.JsValue.{Value, string, is_nil, is_object_type}
use timemachine.Convert.{
  Longs, as_long, as_number, Options, to_json_options, Given, instance_of, plain, Row, shown,
  write_rows, verify_object, verify_field, first_error, check_long, check_string, from_field,
  to_long, to_string, show_long,
}
use timemachine.Convert.Rows.{with_default}
use timemachine.Convert.Kinds.{
  from_field-long, from_field-string, verify_field-long, verify_field-string,
}
use timemachine.Convert.Fields.{from_field-verified}
use timemachine.Convert.Conversion.{
  Conversion, first_error-none, verify_object-none, to_long-checked, to_string-checked,
}
use timemachine.Tensor.Dim
use timemachine.Tensor.Dim.{Dim}

unfoldable pub verify : Value → Result (Option Text)
verify message = verify_object message (
    first_error
      (verify_field (units "size") (check_long (units "size: integer|Long expected")) message)
      (verify_field (units "name") (check_string (units "name: string expected")) message))

-- The message with its defaults as own properties, if they are wanted.
abbrev pub filled : Bool → Dim → Dim
filled d message = record {
  size = with_default d 0 message.size;
  name = with_default d [] message.name;
}

module _ (L : Longs) where
  unfoldable pub from_object : Given Dim → Result Dim
  from_object (instance_of message) = ok message
  from_object (plain obj) = do
    x_size ← from_field (units "size") (to_long L) obj
    x_name ← from_field (units "name") (to_string L) obj
    ok (record { size = x_size; name = x_name })

  -- The fields in their order, each with its default.
  abbrev rows : Dim → Options → List Row
  rows message options =
      record {
        key = units "size";
        wanted = options.defaults;
        default = show_long L options 0;
        value = shown (show_long L options) message.size;
      }
      ∷ record {
        key = units "name";
        wanted = options.defaults;
        default = string [];
        value = shown string message.name;
      }
      ∷ []

  unfoldable pub to_object : Dim → Options → Value
  to_object message options = Value.object (write_rows (rows message options))

  abbrev pub to_json : Dim → Value
  to_json message = to_object message to_json_options

  -- What is shown is read back.
  pub from_object-to_object :
      (message : Dim) (options : Options)
      → Dim.IsValid message
      → options.longs ≢ as_number
      → from_object (plain (to_object message options)) ≡ ok (filled options.defaults message)
  unfolding from_object to_object
  from_object-to_object message options (v₁, v₂) not_number =
      >>=-step _ (with_default options.defaults 0 message.size)
        (from_field-long L options (units "size") (rows message options) message.size refl
          not_number v₁)
        (>>=-step _ (with_default options.defaults [] message.name)
          (from_field-string L options (units "name") (rows message options) message.name refl)
          refl)

  pub verify-to_object :
      (message : Dim) (options : Options)
      → options.longs ≡ as_long
      → verify (to_object message options) ≡ ok none
  unfolding verify to_object
  verify-to_object message options longs =
      ap₂ first_error
        (verify_field-long L options (units "size") (rows message options) refl
          (units "size: integer|Long expected") message.size refl longs)
        (verify_field-string L options (units "name") (rows message options) refl
          (units "name: string expected") message.name refl)

  pub verify-from_object :
      (v : Value) → verify v ≡ ok none → (message : Dim) × (from_object (plain v) ≡ ok message)
  unfolding verify from_object
  verify-from_object v h =
      let (ob, there, h₁) = verify_object-none v _ h in
      let (p₁, h₂) = first_error-none _ _ h₁ in
      let (o₁, e₁) =
        from_field-verified (units "size") (check_long (units "size: integer|Long expected"))
          (to_long L) v there p₁ (λ w. to_long-checked L (units "size: integer|Long expected") w) in
      let (o₂, e₂) =
        from_field-verified (units "name") (check_string (units "name: string expected"))
          (to_string L) v there h₂ (λ w. to_string-checked L (units "name: string expected") w) in
      (record { size = o₁; name = o₂ }, >>=-step _ o₁ e₁ (>>=-step _ o₂ e₂ (refl)))

  pub to_object-IsObject :
      (message : Dim) (options : Options)
      → (is_object_type (to_object message options) ≡ true)
        × (is_nil (to_object message options) ≡ false)
  unfolding to_object
  to_object-IsObject message options = (refl, refl)

  pub verify-IsObject :
      (v : Value) → verify v ≡ ok none → (is_object_type v ≡ true) × (is_nil v ≡ false)
  unfolding verify
  verify-IsObject v h = let (ob, there, fields) = verify_object-none v _ h in (ob, there)

  abbrev pub conversion : Conversion Dim
  conversion = record {
    IsValid = Dim.IsValid;
    verify = verify;
    from_object = from_object;
    to_object = to_object;
    filled = filled;
    to_object-IsObject = to_object-IsObject;
    from_object-to_object = from_object-to_object;
    verify-to_object = verify-to_object;
    verify-IsObject = verify-IsObject;
    verify-from_object = verify-from_object;
  }
