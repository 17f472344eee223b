-- ===== src/Examples/Messages.antt =====
-- Messages to try the code on.
use timemachine.Base.{◌<◌, ◌^◌, refl, ℤ, [], ◌∷◌, none, some, true, false, length, arith}
use timemachine.Protobuf.Outcome.{Text}
use timemachine.Protobuf.Runtime.{IsText}
use timemachine.Sample.Format.{varint}
use timemachine.Sample.Runtime.{runtime}
use timemachine.Tensor.Nested.{Tensor, tensor_codec}
use timemachine.Tensor.TensorProto
use timemachine.Tensor.TensorProto.{TensorProto}
use timemachine.Serving.ModelSpec
use timemachine.Serving.ModelSpec.{ModelSpec}
use timemachine.Serving.PredictResponse
use timemachine.Serving.PredictResponse.{PredictResponse}
use timemachine.Serving.PredictRequest
use timemachine.Serving.PredictRequest.{PredictRequest}

-- "m", and a character of two code units.
abbrev pub name : Text
name = 109 ∷ 0xd83d ∷ 0xde00 ∷ []

pub name-IsText : IsText name
name-IsText = (refl, (omega arith, (omega arith, (omega arith, _))))

abbrev pub model : ModelSpec
model = record {
  name = some name;
  version = some (record { value = some 3 });
  signature_name = some (115 ∷ []);
}

pub model-IsValid : ModelSpec.IsValid model
model-IsValid = (name-IsText, omega arith, (refl, (omega arith, _)))

-- A tensor of numbers.
abbrev pub flat : Tensor 0
flat = record TensorProto.empty { dtype = some (ℤ.pos 3); int_val = ℤ.pos 5 ∷ ℤ.negsuc 1 ∷ [] }

pub flat-IsValid : (tensor_codec runtime 0).IsValid flat
flat-IsValid =
    (omega arith, _, _, _, _, _, (omega arith, (omega arith, _)), _, _, _, _, _, _, _, _, _, _)

-- A tensor of tensors.
abbrev pub nested : Tensor 1
nested = record TensorProto.empty {
  tensor_shape =
      some (record { dim = record { size = some 2; name = some name } ∷ []; unknown_rank = none });
  tensor_content = some (0 ∷ 255 ∷ []);
  float_val = 0x3f800000 ∷ [];
  bool_val = true ∷ false ∷ [];
  string_val = (1 ∷ []) ∷ [] ∷ [];
  variant_val =
      record { type_name = some name; metadata = some (7 ∷ []); tensors = flat ∷ flat ∷ [] } ∷ [];
  map_val = record { subtensors = (name, flat) ∷ [] } ∷ [];
}

pub nested-IsValid : (tensor_codec runtime 1).IsValid nested
nested-IsValid = (
  _,
  (((omega arith, name-IsText), _), _),
  _,
  (omega arith, (omega arith, _)),
  (omega arith, _),
  _,
  _,
  ((omega arith, _), (_, _)),
  _,
  _,
  (_, (_, _)),
  _,
  _,
  ((name-IsText, (omega arith, _), (flat-IsValid, (flat-IsValid, _))), _),
  _,
  _,
  ((((name-IsText, refl, flat-IsValid), _), (refl, _)), _),
)

abbrev pub request : PredictRequest (Tensor 1)
request = record { model_spec = some model; inputs = (name, nested) ∷ (115 ∷ [], nested) ∷ [] }

pub request-IsValid : PredictRequest.IsValid runtime (tensor_codec runtime 1) request
request-IsValid = (
  model-IsValid,
  (
    ((name-IsText, refl, nested-IsValid), (((refl, (omega arith, _)), refl, nested-IsValid), _)),
    (refl, (refl, _)),
  ),
)

abbrev pub answer : PredictResponse (Tensor 1)
answer = record {
  outputs = (name, nested) ∷ [];
  internal_info = [];
  trace_data = some (record { ts = some 1543000000; uid = some 7 });
}

pub answer-IsValid : PredictResponse.IsValid runtime (tensor_codec runtime 1) answer
answer-IsValid =
    ((((name-IsText, refl, nested-IsValid), _), (refl, _)), (_, _), (omega arith, omega arith))

-- Each is shorter than 2 ^ 30 bytes.
pub model-short : length (ModelSpec.wire runtime model) < 2 ^ 30
unfolding varint
model-short = omega arith

pub request-short : length (PredictRequest.wire runtime (tensor_codec runtime 1) request) < 2 ^ 30
unfolding varint
request-short = omega arith

pub answer-short : length (PredictResponse.wire runtime (tensor_codec runtime 1) answer) < 2 ^ 30
unfolding varint
answer-short = omega arith

pub nested-short : length ((tensor_codec runtime 1).wire nested) < 2 ^ 30
unfolding varint
nested-short = omega arith
