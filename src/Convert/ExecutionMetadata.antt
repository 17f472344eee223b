-- ===== src/Convert/ExecutionMetadata.antt =====
-- `verify`, `fromObject`, `toObject` and `toJSON` of `hydrosphere.monitoring.ExecutionMetadata` in
-- tsclient/recstore-ts/src/compiled.js.
use timemachine.Base.{
  ◌≡◌, ◌≢◌, refl, ap₂, List, [], ◌∷◌, Bool, true, false, Option, none, map_option, units,
}
use timemachine.Protobuf.Outcome.{Text, Result, ok, ◌>>=◌, >>=-step}
use timemachine.JsValue.{Value, null, string, is_nil, is_object_type}
use timemachine.Convert.{
  Longs, as_long, as_number, Options, to_json_options, Given, instance_of, plain, Row, shown,
  write_rows, verify_object, verify_field, first_error, check_long, check_string, within,
  from_field, to_long, to_string, to_message, show_long,
}
use timemachine.Convert.Rows.{with_default}
use timemachine.Convert.Kinds.{
  from_field-long, from_field-string, from_field-message, verify_field-long, verify_field-string,
  verify_field-message,
}
use timemachine.Convert.Fields.{from_field-verified}
use timemachine.Convert.Conversion.{
  Conversion, first_error-none, verify_object-none, to_long-checked, to_string-checked,
  to_message-checked,
}
use timemachine.Convert.TraceData
use timemachine.Monitoring.ExecutionMetadata
use timemachine.Monitoring.ExecutionMetadata.{ExecutionMetadata}

unfoldable pub verify : Value → Result (Option Text)
verify message = verify_object message (
    first_error
      (verify_field (units "applicationId")
        (check_long (units "applicationId: integer|Long expected")) message)
      (first_error
        (verify_field (units "stageId") (check_string (units "stageId: string expected")) message)
        (first_error
          (verify_field (units "modelVersionId")
            (check_long (units "modelVersionId: integer|Long expected")) message)
          (first_error
            (verify_field (units "signatureName")
              (check_string (units "signatureName: string expected")) message)
            (first_error
              (verify_field (units "requestId") (check_string (units "requestId: string expected"))
                message)
              (first_error
                (verify_field (units "applicationRequestId")
                  (check_string (units "applicationRequestId: string expected")) message)
                (first_error
                  (verify_field (units "applicationNamespace")
                    (check_string (units "applicationNamespace: string expected")) message)
                  (first_error
                    (verify_field (units "modelName")
                      (check_string (units "modelName: string expected")) message)
                    (verify_field (units "traceData")
                      (λ v. within (units "traceData.") (TraceData.verify v)) message)))))))))

-- The message with its defaults as own properties, if they are wanted.
abbrev pub filled : Bool → ExecutionMetadata → ExecutionMetadata
filled d message = record {
  application_id = with_default d 0 message.application_id;
  stage_id = with_default d [] message.stage_id;
  model_version_id = with_default d 0 message.model_version_id;
  signature_name = with_default d [] message.signature_name;
  request_id = with_default d [] message.request_id;
  application_request_id = with_default d [] message.application_request_id;
  application_namespace = with_default d [] message.application_namespace;
  model_name = with_default d [] message.model_name;
  trace_data = map_option (TraceData.filled d) message.trace_data;
}

module _ (L : Longs) where
  unfoldable pub from_object : Given ExecutionMetadata → Result ExecutionMetadata
  from_object (instance_of message) = ok message
  from_object (plain obj) = do
    x_application_id ← from_field (units "applicationId") (to_long L) obj
    x_stage_id ← from_field (units "stageId") (to_string L) obj
    x_model_version_id ← from_field (units "modelVersionId") (to_long L) obj
    x_signature_name ← from_field (units "signatureName") (to_string L) obj
    x_request_id ← from_field (units "requestId") (to_string L) obj
    x_application_request_id ← from_field (units "applicationRequestId") (to_string L) obj
    x_application_namespace ← from_field (units "applicationNamespace") (to_string L) obj
    x_model_name ← from_field (units "modelName") (to_string L) obj
    x_trace_data ← from_field (units "traceData") (to_message (TraceData.from_object L)) obj
    ok (record {
      application_id = x_application_id;
      stage_id = x_stage_id;
      model_version_id = x_model_version_id;
      signature_name = x_signature_name;
      request_id = x_request_id;
      application_request_id = x_application_request_id;
      application_namespace = x_application_namespace;
      model_name = x_model_name;
      trace_data = x_trace_data;
    })

  -- The fields in their order, each with its default.
  abbrev rows : ExecutionMetadata → Options → List Row
  rows message options =
      record {
        key = units "applicationId";
        wanted = options.defaults;
        default = show_long L options 0;
        value = shown (show_long L options) message.application_id;
      }
      ∷ record {
        key = units "stageId";
        wanted = options.defaults;
        default = string [];
        value = shown string message.stage_id;
      }
      ∷ record {
        key = units "modelVersionId";
        wanted = options.defaults;
        default = show_long L options 0;
        value = shown (show_long L options) message.model_version_id;
      }
      ∷ record {
        key = units "signatureName";
        wanted = options.defaults;
        default = string [];
        value = shown string message.signature_name;
      }
      ∷ record {
        key = units "requestId";
        wanted = options.defaults;
        default = string [];
        value = shown string message.request_id;
      }
      ∷ record {
        key = units "applicationRequestId";
        wanted = options.defaults;
        default = string [];
        value = shown string message.application_request_id;
      }
      ∷ record {
        key = units "applicationNamespace";
        wanted = options.defaults;
        default = string [];
        value = shown string message.application_namespace;
      }
      ∷ record {
        key = units "modelName";
        wanted = options.defaults;
        default = string [];
        value = shown string message.model_name;
      }
      ∷ record {
        key = units "traceData";
        wanted = options.defaults;
        default = null;
        value = shown (λ m. TraceData.to_object L m options) message.trace_data;
      }
      ∷ []

  unfoldable pub to_object : ExecutionMetadata → Options → Value
  to_object message options = Value.object (write_rows (rows message options))

  abbrev pub to_json : ExecutionMetadata → Value
  to_json message = to_object message to_json_options

  -- What is shown is read back.
  pub from_object-to_object :
      (message : ExecutionMetadata) (options : Options)
      → ExecutionMetadata.IsValid message
      → options.longs ≢ as_number
      → from_object (plain (to_object message options)) ≡ ok (filled options.defaults message)
  unfolding from_object to_object
  from_object-to_object message options (v₁, v₂, v₃, v₄, v₅, v₆, v₇, v₈, v₉) not_number =
      >>=-step _ (with_default options.defaults 0 message.application_id)
        (from_field-long L options (units "applicationId") (rows message options)
          message.application_id refl not_number v₁)
        (>>=-step _ (with_default options.defaults [] message.stage_id)
          (from_field-string L options (units "stageId") (rows message options) message.stage_id
            refl)
          (>>=-step _ (with_default options.defaults 0 message.model_version_id)
            (from_field-long L options (units "modelVersionId") (rows message options)
              message.model_version_id refl not_number v₃)
            (>>=-step _ (with_default options.defaults [] message.signature_name)
              (from_field-string L options (units "signatureName") (rows message options)
                message.signature_name refl)
              (>>=-step _ (with_default options.defaults [] message.request_id)
                (from_field-string L options (units "requestId") (rows message options)
                  message.request_id refl)
                (>>=-step _ (with_default options.defaults [] message.application_request_id)
                  (from_field-string L options (units "applicationRequestId") (rows message options)
                    message.application_request_id refl)
                  (>>=-step _ (with_default options.defaults [] message.application_namespace)
                    (from_field-string L options (units "applicationNamespace")
                      (rows message options) message.application_namespace refl)
                    (>>=-step _ (with_default options.defaults [] message.model_name)
                      (from_field-string L options (units "modelName") (rows message options)
                        message.model_name refl)
                      (>>=-step _
                        (map_option (TraceData.filled options.defaults) message.trace_data)
                        (from_field-message L options (units "traceData") (rows message options)
                          (TraceData.conversion L) message.trace_data refl not_number v₉)
                        refl))))))))

  pub verify-to_object :
      (message : ExecutionMetadata) (options : Options)
      → options.longs ≡ as_long
      → verify (to_object message options) ≡ ok none
  unfolding verify to_object
  verify-to_object message options longs =
      ap₂ first_error
        (verify_field-long L options (units "applicationId") (rows message options) refl
          (units "applicationId: integer|Long expected") message.application_id refl longs)
        (ap₂ first_error
          (verify_field-string L options (units "stageId") (rows message options) refl
            (units "stageId: string expected") message.stage_id refl)
          (ap₂ first_error
            (verify_field-long L options (units "modelVersionId") (rows message options) refl
              (units "modelVersionId: integer|Long expected") message.model_version_id refl longs)
            (ap₂ first_error
              (verify_field-string L options (units "signatureName") (rows message options) refl
                (units "signatureName: string expected") message.signature_name refl)
              (ap₂ first_error
                (verify_field-string L options (units "requestId") (rows message options) refl
                  (units "requestId: string expected") message.request_id refl)
                (ap₂ first_error
                  (verify_field-string L options (units "applicationRequestId")
                    (rows message options) refl (units "applicationRequestId: string expected")
                    message.application_request_id refl)
                  (ap₂ first_error
                    (verify_field-string L options (units "applicationNamespace")
                      (rows message options) refl (units "applicationNamespace: string expected")
                      message.application_namespace refl)
                    (ap₂ first_error
                      (verify_field-string L options (units "modelName") (rows message options) refl
                        (units "modelName: string expected") message.model_name refl)
                      (verify_field-message L options (units "traceData") (rows message options)
                        refl (TraceData.conversion L) (units "traceData.") message.trace_data refl
                        longs))))))))

  pub verify-from_object :
      (v : Value)
      → verify v ≡ ok none
      → (message : ExecutionMetadata) × (from_object (plain v) ≡ ok message)
  unfolding verify from_object
  verify-from_object v h =
      let (ob, there, h₁) = verify_object-none v _ h in
      let (p₁, h₂) = first_error-none _ _ h₁ in
      let (o₁, e₁) =
        from_field-verified (units "applicationId")
          (check_long (units "applicationId: integer|Long expected")) (to_long L) v there p₁
          (λ w. to_long-checked L (units "applicationId: integer|Long expected") w) in
      let (p₂, h₃) = first_error-none _ _ h₂ in
      let (o₂, e₂) =
        from_field-verified (units "stageId") (check_string (units "stageId: string expected"))
          (to_string L) v there p₂
          (λ w. to_string-checked L (units "stageId: string expected") w) in
      let (p₃, h₄) = first_error-none _ _ h₃ in
      let (o₃, e₃) =
        from_field-verified (units "modelVersionId")
          (check_long (units "modelVersionId: integer|Long expected")) (to_long L) v there p₃
          (λ w. to_long-checked L (units "modelVersionId: integer|Long expected") w) in
      let (p₄, h₅) = first_error-none _ _ h₄ in
      let (o₄, e₄) =
        from_field-verified (units "signatureName")
          (check_string (units "signatureName: string expected")) (to_string L) v there p₄
          (λ w. to_string-checked L (units "signatureName: string expected") w) in
      let (p₅, h₆) = first_error-none _ _ h₅ in
      let (o₅, e₅) =
        from_field-verified (units "requestId") (check_string (units "requestId: string expected"))
          (to_string L) v there p₅
          (λ w. to_string-checked L (units "requestId: string expected") w) in
      let (p₆, h₇) = first_error-none _ _ h₆ in
      let (o₆, e₆) =
        from_field-verified (units "applicationRequestId")
          (check_string (units "applicationRequestId: string expected")) (to_string L) v there p₆
          (λ w. to_string-checked L (units "applicationRequestId: string expected") w) in
      let (p₇, h₈) = first_error-none _ _ h₇ in
      let (o₇, e₇) =
        from_field-verified (units "applicationNamespace")
          (check_string (units "applicationNamespace: string expected")) (to_string L) v there p₇
          (λ w. to_string-checked L (units "applicationNamespace: string expected") w) in
      let (p₈, h₉) = first_error-none _ _ h₈ in
      let (o₈, e₈) =
        from_field-verified (units "modelName") (check_string (units "modelName: string expected"))
          (to_string L) v there p₈
          (λ w. to_string-checked L (units "modelName: string expected") w) in
      let (o₉, e₉) =
        from_field-verified (units "traceData")
          (λ v. within (units "traceData.") (TraceData.verify v))
          (to_message (TraceData.from_object L)) v there h₉
          (λ w. to_message-checked (TraceData.conversion L) (units "traceData.") w) in
      (
        record {
          application_id = o₁;
          stage_id = o₂;
          model_version_id = o₃;
          signature_name = o₄;
          request_id = o₅;
          application_request_id = o₆;
          application_namespace = o₇;
          model_name = o₈;
          trace_data = o₉;
        },
        >>=-step _ o₁ e₁ (
            >>=-step _ o₂ e₂ (
              >>=-step _ o₃ e₃ (
                >>=-step _ o₄ e₄ (
                  >>=-step _ o₅ e₅ (
                    >>=-step _ o₆ e₆
                      (>>=-step _ o₇ e₇ (>>=-step _ o₈ e₈ (>>=-step _ o₉ e₉ (refl))))))))),
      )

  pub to_object-IsObject :
      (message : ExecutionMetadata) (options : Options)
      → (is_object_type (to_object message options) ≡ true)
        × (is_nil (to_object message options) ≡ false)
  unfolding to_object
  to_object-IsObject message options = (refl, refl)

  pub verify-IsObject :
      (v : Value) → verify v ≡ ok none → (is_object_type v ≡ true) × (is_nil v ≡ false)
  unfolding verify
  verify-IsObject v h = let (ob, there, fields) = verify_object-none v _ h in (ob, there)

  abbrev pub conversion : Conversion ExecutionMetadata
  conversion = record {
    IsValid = ExecutionMetadata.IsValid;
    verify = verify;
    from_object = from_object;
    to_object = to_object;
    filled = filled;
    to_object-IsObject = to_object-IsObject;
    from_object-to_object = from_object-to_object;
    verify-to_object = verify-to_object;
    verify-IsObject = verify-IsObject;
    verify-from_object = verify-from_object;
  }
