-- ===== src/Examples/Convert.antt =====
-- The results on plain objects.
use timemachine.Base.{◌≡◌, refl, ℤ, units, [], ◌∷◌, true, none, some, arith}
use timemachine.Protobuf.Outcome.{ok}
use timemachine.JsValue.{Value, no_properties, property}
use timemachine.Convert.{Options, as_string, no_options, plain, verify_field}
use timemachine.Convert.ModelSpec
use timemachine.Convert.TraceData
use timemachine.Convert.TensorShapeProto
use timemachine.Tensor.TensorShapeProto.{TensorShapeProto}
use timemachine.Convert.ExecutionMetadata as Metadata
use timemachine.Monitoring.ExecutionMetadata.{ExecutionMetadata}
use timemachine.Convert.RoundTrip.{
  from_object-to_object_execution_metadata, verify-to_object_execution_metadata,
  verify-from_object_execution_metadata, from_object-to_object_model_spec,
  from_object-to_json_trace_data, from_object-to_object_tensor_shape,
}
use timemachine.Monitoring.TraceData.{TraceData}
use timemachine.Sample.Longs.{longs}
use timemachine.Examples.Messages.{model, model-IsValid, name, name-IsText}

abbrev all_options : Options
all_options = record { longs = as_string; defaults = true; arrays = true }

from_object-to_object_model_spec_example :
    ModelSpec.from_object longs (plain (ModelSpec.to_object longs model all_options))
    ≡ ok (ModelSpec.filled true model)
from_object-to_object_model_spec_example =
    from_object-to_object_model_spec longs model all_options model-IsValid (λ e. cc)

abbrev trace : TraceData
trace = record { ts = some 1543000000; uid = none }

from_object-to_json_trace_data_example :
    TraceData.from_object longs (plain (TraceData.to_json longs trace)) ≡ ok trace
from_object-to_json_trace_data_example = from_object-to_json_trace_data longs trace (omega arith, _)

abbrev shape : TensorShapeProto
shape = record {
  dim = record { size = some 4; name = none } ∷ record { size = none; name = some name } ∷ [];
  unknown_rank = none;
}

from_object-to_object_tensor_shape_example :
    TensorShapeProto.from_object longs (plain (TensorShapeProto.to_object longs shape all_options))
    ≡ ok (TensorShapeProto.filled true shape)
from_object-to_object_tensor_shape_example =
    from_object-to_object_tensor_shape longs shape all_options
      (((omega arith, _), ((_, name-IsText), _)), _) (λ e. cc)

abbrev metadata : ExecutionMetadata
metadata = record {
  application_id = some 1;
  stage_id = some name;
  model_version_id = some 7;
  signature_name = none;
  request_id = none;
  application_request_id = none;
  application_namespace = none;
  model_name = some name;
  trace_data = some trace;
}

from_object-to_object_execution_metadata_example :
    Metadata.from_object longs (plain (Metadata.to_object longs metadata all_options))
    ≡ ok (Metadata.filled true metadata)
from_object-to_object_execution_metadata_example =
    from_object-to_object_execution_metadata longs metadata all_options
      (omega arith, name-IsText, omega arith, _, _, _, _, name-IsText, (omega arith, _)) (λ e. cc)

verify-to_object_execution_metadata_example :
    Metadata.verify (Metadata.to_object longs metadata no_options) ≡ ok none
verify-to_object_execution_metadata_example =
    verify-to_object_execution_metadata longs metadata no_options refl

-- `{ modelName: "m", traceData: { ts: 3 } }`
abbrev given : Value
given = Value.object (
    property (units "modelName") (Value.string (109 ∷ [])) (
      property (units "traceData")
        (Value.object (property (units "ts") (Value.integer (ℤ.pos 3)) no_properties))
        no_properties))

verify-from_object_execution_metadata_example :
    (message : ExecutionMetadata) × (Metadata.from_object longs (plain given) ≡ ok message)
unfolding Metadata.verify TraceData.verify verify_field
verify-from_object_execution_metadata_example =
    verify-from_object_execution_metadata longs given refl
