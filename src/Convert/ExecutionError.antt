-- ===== src/Convert/ExecutionError.antt =====
-- `verify`, `fromObject`, `toObject` and `toJSON` of `hydrosphere.monitoring.ExecutionError` in
-- tsclient/recstore-ts/src/compiled.js.
use timemachine.Base.{◌≡◌, ◌≢◌, refl, List, [], ◌∷◌, Bool, true, false, Option, none, units}
use timemachine.Protobuf.Outcome.{Text, Result, ok, ◌>>=◌, >>=-step}
use timemachine.JsValue.{Value, string, is_nil, is_object_type}
use timemachine.Convert.{
  Longs, as_long, as_number, Options, to_json_options, Given, instance_of, plain, Row, shown,
  write_rows, verify_object, verify_field, check_string, from_field, to_string,
}
use timemachine.Convert.Rows.{with_default}
use timemachine.Convert.Kinds.{from_field-string, verify_field-string}
use timemachine.Convert.Fields.{from_field-verified}
use timemachine.Convert.Conversion.{Conversion, verify_object-none, to_string-checked}
use timemachine.Monitoring.ExecutionError
use timemachine.Monitoring.ExecutionError.{ExecutionError}

unfoldable pub verify : Value → Result (Option Text)
verify message = verify_object message (
    verify_field (units "errorMessage") (check_string (units "errorMessage: string expected"))
      message)

-- The message with its defaults as own properties, if they are wanted.
abbrev pub filled : Bool → ExecutionError → ExecutionError
filled d message = record { error_message = with_default d [] message.error_message }

module _ (L : Longs) where
  unfoldable pub from_object : Given ExecutionError → Result ExecutionError
  from_object (instance_of message) = ok message
  from_object (plain obj) = do
    x_error_message ← from_field (units "errorMessage") (to_string L) obj
    ok (record { error_message = x_error_message })

  -- The fields in their order, each with its default.
  abbrev rows : ExecutionError → Options → List Row
  rows message options =
      record {
        key = units "errorMessage";
        wanted = options.defaults;
        default = string [];
        value = shown string message.error_message;
      }
      ∷ []

  unfoldable pub to_object : ExecutionError → Options → Value
  to_object message options = Value.object (write_rows (rows message options))

  abbrev pub to_json : ExecutionError → Value
  to_json message = to_object message to_json_options

  -- What is shown is read back.
  pub from_object-to_object :
      (message : ExecutionError) (options : Options)
      → ExecutionError.IsValid message
      → options.longs ≢ as_number
      → from_object (plain (to_object message options)) ≡ ok (filled options.defaults message)
  unfolding from_object to_object
  from_object-to_object message options valid not_number =
      >>=-step _ (with_default options.defaults [] message.error_message)
        (from_field-string L options (units "errorMessage") (rows message options)
          message.error_message refl)
        refl

  pub verify-to_object :
      (message : ExecutionError) (options : Options)
      → options.longs ≡ as_long
      → verify (to_object message options) ≡ ok none
  unfolding verify to_object
  verify-to_object message options longs =
      verify_field-string L options (units "errorMessage") (rows message options) refl
        (units "errorMessage: string expected") message.error_message refl

  pub verify-from_object :
      (v : Value)
      → verify v ≡ ok none
      → (message : ExecutionError) × (from_object (plain v) ≡ ok message)
  unfolding verify from_object
  verify-from_object v h =
      let (ob, there, h₁) = verify_object-none v _ h in
      let (o₁, e₁) =
        from_field-verified (units "errorMessage")
          (check_string (units "errorMessage: string expected")) (to_string L) v there h₁
          (λ w. to_string-checked L (units "errorMessage: string expected") w) in
      (record { error_message = o₁ }, >>=-step _ o₁ e₁ (refl))

  pub to_object-IsObject :
      (message : ExecutionError) (options : Options)
      → (is_object_type (to_object message options) ≡ true)
        × (is_nil (to_object message options) ≡ false)
  unfolding to_object
  to_object-IsObject message options = (refl, refl)

  pub verify-IsObject :
      (v : Value) → verify v ≡ ok none → (is_object_type v ≡ true) × (is_nil v ≡ false)
  unfolding verify
  verify-IsObject v h = let (ob, there, fields) = verify_object-none v _ h in (ob, there)

  abbrev pub conversion : Conversion ExecutionError
  conversion = record {
    IsValid = ExecutionError.IsValid;
    verify = verify;
    from_object = from_object;
    to_object = to_object;
    filled = filled;
    to_object-IsObject = to_object-IsObject;
    from_object-to_object = from_object-to_object;
    verify-to_object = verify-to_object;
    verify-IsObject = verify-IsObject;
    verify-from_object = verify-from_object;
  }
