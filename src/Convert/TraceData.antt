-- ===== src/Convert/TraceData.antt =====
-- `verify`, `fromObject`, `toObject` and `toJSON` of `hydrosphere.monitoring.TraceData` in
-- tsclient/recstore-ts/src/compiled.js.
use timemachine.Base.{◌≡◌, ◌≢◌, refl, ap₂, List, [], ◌∷◌, Bool, true, false, Option, none, units}
use timemachine.Protobuf.Outcome.{Text, Result, ok, ◌>>=◌, >>=-step}
use timemachine.JsValue.{Value, is_nil, is_object_type}
use timemachine.Convert.{
  Longs, as_long, as_number, Options, to_json_options, Given, instance_of, plain, Row, shown,
  write_rows, verify_object, verify_field, first_error, check_long, from_field, to_long, show_long,
}
use timemachine.Convert.Rows.{with_default}
use timemachine.Convert.Kinds.{from_field-long, verify_field-long}
use timemachine.Convert.Fields.{from_field-verified}
use timemachine.Convert.Conversion.{
  Conversion, first_error-none, verify_object-none, to_long-checked,
}
use timemachine.Monitoring.TraceData
use timemachine.Monitoring.TraceData.{TraceData}

unfoldable pub verify : Value → Result (Option Text)
verify message = verify_object message (
    first_error (verify_field (units "ts") (check_long (units "ts: integer|Long expected")) message)
      (verify_field (units "uid") (check_long (units "uid: integer|Long expected")) message))

-- The message with its defaults as own properties, if they are wanted.
abbrev pub filled : Bool → TraceData → TraceData
filled d message = record { ts = with_default d 0 message.ts; uid = with_default d 0 message.uid }

module _ (L : Longs) where
  unfoldable pub from_object : Given TraceData → Result TraceData
  from_object (instance_of message) = ok message
  from_object (plain obj) = do
    x_ts ← from_field (units "ts") (to_long L) obj
    x_uid ← from_field (units "uid") (to_long L) obj
    ok (record { ts = x_ts; uid = x_uid })

  -- The fields in their order, each with its default.
  abbrev rows : TraceData → Options → List Row
  rows message options =
      record {
        key = units "ts";
        wanted = options.defaults;
        default = show_long L options 0;
        value = shown (show_long L options) message.ts;
      }
      ∷ record {
        key = units "uid";
        wanted = options.defaults;
        default = show_long L options 0;
        value = shown (show_long L options) message.uid;
      }
      ∷ []

  unfoldable pub to_object : TraceData → Options → Value
  to_object message options = Value.object (write_rows (rows message options))

  abbrev pub to_json : TraceData → Value
  to_json message = to_object message to_json_options

  -- What is shown is read back.
  pub from_object-to_object :
      (message : TraceData) (options : Options)
      → TraceData.IsValid message
      → options.longs ≢ as_number
      → from_object (plain (to_object message options)) ≡ ok (filled options.defaults message)
  unfolding from_object to_object
  from_object-to_object message options (v₁, v₂) not_number =
      >>=-step _ (with_default options.defaults 0 message.ts)
        (from_field-long L options (units "ts") (rows message options) message.ts refl not_number
          v₁)
        (>>=-step _ (with_default options.defaults 0 message.uid)
          (from_field-long L options (units "uid") (rows message options) message.uid refl
            not_number v₂)
          refl)

  pub verify-to_object :
      (message : TraceData) (options : Options)
      → options.longs ≡ as_long
      → verify (to_object message options) ≡ ok none
  unfolding verify to_object
  verify-to_object message options longs =
      ap₂ first_error
        (verify_field-long L options (units "ts") (rows message options) refl
          (units "ts: integer|Long expected") message.ts refl longs)
        (verify_field-long L options (units "uid") (rows message options) refl
          (units "uid: integer|Long expected") message.uid refl longs)

  pub verify-from_object :
      (v : Value)
      → verify v ≡ ok none
      → (message : TraceData) × (from_object (plain v) ≡ ok message)
  unfolding verify from_object
  verify-from_object v h =
      let (ob, there, h₁) = verify_object-none v _ h in
      let (p₁, h₂) = first_error-none _ _ h₁ in
      let (o₁, e₁) =
        from_field-verified (units "ts") (check_long (units "ts: integer|Long expected"))
          (to_long L) v there p₁ (λ w. to_long-checked L (units "ts: integer|Long expected") w) in
      let (o₂, e₂) =
        from_field-verified (units "uid") (check_long (units "uid: integer|Long expected"))
          (to_long L) v there h₂ (λ w. to_long-checked L (units "uid: integer|Long expected") w) in
      (record { ts = o₁; uid = o₂ }, >>=-step _ o₁ e₁ (>>=-step _ o₂ e₂ (refl)))

  pub to_object-IsObject :
      (message : TraceData) (options : Options)
      → (is_object_type (to_object message options) ≡ true)
        × (is_nil (to_object message options) ≡ false)
  unfolding to_object
  to_object-IsObject message options = (refl, refl)

  pub verify-IsObject :
      (v : Value) → verify v ≡ ok none → (is_object_type v ≡ true) × (is_nil v ≡ false)
  unfolding verify
  verify-IsObject v h = let (ob, there, fields) = verify_object-none v _ h in (ob, there)

  abbrev pub conversion : Conversion TraceData
  conversion = record {
    IsValid = TraceData.IsValid;
    verify = verify;
    from_object = from_object;
    to_object = to_object;
    filled = filled;
    to_object-IsObject = to_object-IsObject;
    from_object-to_object = from_object-to_object;
    verify-to_object = verify-to_object;
    verify-IsObject = verify-IsObject;
    verify-from_object = verify-from_object;
  }
