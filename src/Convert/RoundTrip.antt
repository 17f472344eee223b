-- ===== src/Convert/RoundTrip.antt =====
-- `fromObject` after `toObject` or `toJSON`, and after `verify`, in
-- tsclient/recstore-ts/src/compiled.js.
use timemachine.Base.{◌≡◌, ◌≢◌, none}
use timemachine.Protobuf.Outcome.{ok}
use timemachine.JsValue.{Value}
use timemachine.Convert.{Longs, as_long, as_number, Options, plain}
use timemachine.Convert.ExecutionMetadata
use timemachine.Monitoring.ExecutionMetadata.{ExecutionMetadata}
use timemachine.Convert.ModelSpec
use timemachine.Convert.TraceData
use timemachine.Convert.TensorShapeProto
use timemachine.Tensor.TensorShapeProto.{TensorShapeProto}
use timemachine.Serving.ModelSpec.{ModelSpec}
use timemachine.Monitoring.TraceData.{TraceData}

module _ (L : Longs) where
  -- `ModelSpec.fromObject` of what `ModelSpec.toObject` makes of a message, with any options but
  -- `longs: Number`, returns the message; with `defaults` its texts and the number of its version
  -- that are not set have their defaults. The numbers must fit in 64 bits.
  pub from_object-to_object_model_spec :
      (message : ModelSpec) (options : Options)
      → (ModelSpec.conversion L).IsValid message
      → options.longs ≢ as_number
      → ModelSpec.from_object L (plain (ModelSpec.to_object L message options))
        ≡ ok (ModelSpec.filled options.defaults message)
  from_object-to_object_model_spec = ModelSpec.from_object-to_object L

  -- `TraceData.fromObject` of what `TraceData.toJSON` returns, with its numbers as strings, is the
  -- message, if the numbers fit in 64 bits.
  pub from_object-to_json_trace_data :
      (message : TraceData)
      → (TraceData.conversion L).IsValid message
      → TraceData.from_object L (plain (TraceData.to_json L message)) ≡ ok message
  from_object-to_json_trace_data message valid =
      TraceData.from_object-to_object L message _ valid (λ e. cc)

  -- `TensorShapeProto.fromObject` of what `TensorShapeProto.toObject` makes of a message, with any
  -- options but `longs: Number`, returns the message with all its dimensions; with `defaults` what is
  -- not set, in it and in the dimensions, has its default. The sizes must fit in 64 bits.
  pub from_object-to_object_tensor_shape :
      (message : TensorShapeProto) (options : Options)
      → (TensorShapeProto.conversion L).IsValid message
      → options.longs ≢ as_number
      → TensorShapeProto.from_object L (plain (TensorShapeProto.to_object L message options))
        ≡ ok (TensorShapeProto.filled options.defaults message)
  from_object-to_object_tensor_shape = TensorShapeProto.from_object-to_object L

  -- `ExecutionMetadata.fromObject` of what `ExecutionMetadata.toObject` makes of a message, with
  -- any options but `longs: Number`, returns the message with its trace data; with `defaults` what
  -- is not set in it has its default. The numbers must fit in 64 bits, and the texts be well-
  -- formed.
  pub from_object-to_object_execution_metadata :
      (message : ExecutionMetadata) (options : Options)
      → (ExecutionMetadata.conversion L).IsValid message
      → options.longs ≢ as_number
      → ExecutionMetadata.from_object L (plain (ExecutionMetadata.to_object L message options))
        ≡ ok (ExecutionMetadata.filled options.defaults message)
  from_object-to_object_execution_metadata = ExecutionMetadata.from_object-to_object L

  -- `ExecutionMetadata.verify` accepts what `ExecutionMetadata.toObject` makes of any message, its
  -- trace data included, with any options that leave its numbers as Longs.
  pub verify-to_object_execution_metadata :
      (message : ExecutionMetadata) (options : Options)
      → options.longs ≡ as_long
      → ExecutionMetadata.verify (ExecutionMetadata.to_object L message options) ≡ ok none
  verify-to_object_execution_metadata = ExecutionMetadata.verify-to_object L

  -- Any value that `ExecutionMetadata.verify` accepts, its trace data included, is converted by
  -- `ExecutionMetadata.fromObject`, without a throw.
  pub verify-from_object_execution_metadata :
      (v : Value)
      → ExecutionMetadata.verify v ≡ ok none
      → (message : ExecutionMetadata) × (ExecutionMetadata.from_object L (plain v) ≡ ok message)
  verify-from_object_execution_metadata = ExecutionMetadata.verify-from_object L
