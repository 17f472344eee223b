-- ===== src/Convert/ModelSpec.antt =====
-- `verify`, `fromObject`, `toObject` and `toJSON` of `hydrosphere.tensorflow.serving.ModelSpec` in
-- tsclient/recstore-ts/src/compiled.js.
use timemachine.Base.{
  ◌≡◌, ◌≢◌, refl, ap₂, List, [], ◌∷◌, Bool, true, false, Option, none, map_option, units,
}
use timemachine.Protobuf.Outcome.{Text, Result, ok, ◌>>=◌, >>=-step}
use timemachine.JsValue.{Value, null, string, is_nil, is_object_type}
use timemachine.Convert.{
  Longs, as_long, as_number, Options, to_json_options, Given, instance_of, plain, Row, shown,
  write_rows, verify_object, verify_field, first_error, check_string, within, from_field, to_string,
  to_message,
}
use timemachine.Convert.Rows.{with_default}
use timemachine.Convert.Kinds.{
  from_field-string, from_field-message, verify_field-string, verify_field-message,
}
use timemachine.Convert.Fields.{from_field-verified}
use timemachine.Convert.Conversion.{
  Conversion, first_error-none, verify_object-none, to_string-checked, to_message-checked,
}
use timemachine.Convert.Int64Value
use timemachine.Serving.ModelSpec
use timemachine.Serving.ModelSpec.{ModelSpec}

unfoldable pub verify : Value → Result (Option Text)
verify message = verify_object message (
    first_error (verify_field (units "name") (check_string (units "name: string expected")) message)
      (first_error
        (verify_field (units "version") (λ v. within (units "version.") (Int64Value.verify v))
          message)
        (verify_field (units "signatureName")
          (check_string (units "signatureName: string expected")) message)))

-- The message with its defaults as own properties, if they are wanted.
abbrev pub filled : Bool → ModelSpec → ModelSpec
filled d message = record {
  name = with_default d [] message.name;
  version = map_option (Int64Value.filled d) message.version;
  signature_name = with_default d [] message.signature_name;
}

module _ (L : Longs) where
  unfoldable pub from_object : Given ModelSpec → Result ModelSpec
  from_object (instance_of message) = ok message
  from_object (plain obj) = do
    x_name ← from_field (units "name") (to_string L) obj
    x_version ← from_field (units "version") (to_message (Int64Value.from_object L)) obj
    x_signature_name ← from_field (units "signatureName") (to_string L) obj
    ok (record { name = x_name; version = x_version; signature_name = x_signature_name })

  -- The fields in their order, each with its default.
  abbrev rows : ModelSpec → Options → List Row
  rows message options =
      record {
        key = units "name";
        wanted = options.defaults;
        default = string [];
        value = shown string message.name;
      }
      ∷ record {
        key = units "version";
        wanted = options.defaults;
        default = null;
        value = shown (λ m. Int64Value.to_object L m options) message.version;
      }
      ∷ record {
        key = units "signatureName";
        wanted = options.defaults;
        default = string [];
        value = shown string message.signature_name;
      }
      ∷ []

  unfoldable pub to_object : ModelSpec → Options → Value
  to_object message options = Value.object (write_rows (rows message options))

  abbrev pub to_json : ModelSpec → Value
  to_json message = to_object message to_json_options

  -- What is shown is read back.
  pub from_object-to_object :
      (message : ModelSpec) (options : Options)
      → ModelSpec.IsValid message
      → options.longs ≢ as_number
      → from_object (plain (to_object message options)) ≡ ok (filled options.defaults message)
  unfolding from_object to_object
  from_object-to_object message options (v₁, v₂, v₃) not_number =
      >>=-step _ (with_default options.defaults [] message.name)
        (from_field-string L options (units "name") (rows message options) message.name refl)
        (>>=-step _ (map_option (Int64Value.filled options.defaults) message.version)
          (from_field-message L options (units "version") (rows message options)
            (Int64Value.conversion L) message.version refl not_number v₂)
          (>>=-step _ (with_default options.defaults [] message.signature_name)
            (from_field-string L options (units "signatureName") (rows message options)
              message.signature_name refl)
            refl))

  pub verify-to_object :
      (message : ModelSpec) (options : Options)
      → options.longs ≡ as_long
      → verify (to_object message options) ≡ ok none
  unfolding verify to_object
  verify-to_object message options longs =
      ap₂ first_error
        (verify_field-string L options (units "name") (rows message options) refl
          (units "name: string expected") message.name refl)
        (ap₂ first_error
          (verify_field-message L options (units "version") (rows message options) refl
            (Int64Value.conversion L) (units "version.") message.version refl longs)
          (verify_field-string L options (units "signatureName") (rows message options) refl
            (units "signatureName: string expected") message.signature_name refl))

  pub verify-from_object :
      (v : Value)
      → verify v ≡ ok none
      → (message : ModelSpec) × (from_object (plain v) ≡ ok message)
  unfolding verify from_object
  verify-from_object v h =
      let (ob, there, h₁) = verify_object-none v _ h in
      let (p₁, h₂) = first_error-none _ _ h₁ in
      let (o₁, e₁) =
        from_field-verified (units "name") (check_string (units "name: string expected"))
          (to_string L) v there p₁ (λ w. to_string-checked L (units "name: string expected") w) in
      let (p₂, h₃) = first_error-none _ _ h₂ in
      let (o₂, e₂) =
        from_field-verified (units "version") (λ v. within (units "version.") (Int64Value.verify v))
          (to_message (Int64Value.from_object L)) v there p₂
          (λ w. to_message-checked (Int64Value.conversion L) (units "version.") w) in
      let (o₃, e₃) =
        from_field-verified (units "signatureName")
          (check_string (units "signatureName: string expected")) (to_string L) v there h₃
          (λ w. to_string-checked L (units "signatureName: string expected") w) in
      (
        record { name = o₁; version = o₂; signature_name = o₃ },
        >>=-step _ o₁ e₁ (>>=-step _ o₂ e₂ (>>=-step _ o₃ e₃ (refl))),
      )

  pub to_object-IsObject :
      (message : ModelSpec) (options : Options)
      → (is_object_type (to_object message options) ≡ true)
        × (is_nil (to_object message options) ≡ false)
  unfolding to_object
  to_object-IsObject message options = (refl, refl)

  pub verify-IsObject :
      (v : Value) → verify v ≡ ok none → (is_object_type v ≡ true) × (is_nil v ≡ false)
  unfolding verify
  verify-IsObject v h = let (ob, there, fields) = verify_object-none v _ h in (ob, there)

  abbrev pub conversion : Conversion ModelSpec
  conversion = record {
    IsValid = ModelSpec.IsValid;
    verify = verify;
    from_object = from_object;
    to_object = to_object;
    filled = filled;
    to_object-IsObject = to_object-IsObject;
    from_object-to_object = from_object-to_object;
    verify-to_object = verify-to_object;
    verify-IsObject = verify-IsObject;
    verify-from_object = verify-from_object;
  }
