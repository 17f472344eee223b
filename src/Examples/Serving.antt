-- ===== src/Examples/Serving.antt =====
-- The results on the serving messages, on the messages of Examples/Messages.antt.
use timemachine.Base.{
  ℕ, ◌<◌, ◌≤◌, ◌≡◌, refl, sym, append-nil, List, [], ◌∷◌, ◌++◌, none, some, length, arith,
}
use timemachine.Protobuf.Outcome.{ok}
use timemachine.Protobuf.Runtime.{
  Reader, Buffers, advance, Payload, varint_value, long_varint, sized_value,
}
use timemachine.Protobuf.Codec.{Codec}
use timemachine.Protobuf.Writes.{sized}
use timemachine.Protobuf.Decoder.{buffer, IsPast}
use timemachine.Protobuf.RoundTrip.{finish}
use timemachine.Protobuf.Unknown.{wire_fields}
use timemachine.Sample.Format.{varint}
use timemachine.Sample.Runtime.{runtime}
use timemachine.Tensor.Nested.{Tensor, tensor_codec}
use timemachine.Serving.ModelSpec
use timemachine.Serving.ModelSpec.{ModelSpec}
use timemachine.Serving.PredictRequest
use timemachine.Serving.PredictResponse
use timemachine.Serving.RoundTrip.{
  decode-encode_predict_request, decode-encode_predict_response,
  decode_delimited-encode_delimited_predict_request, encode_delimited_used_predict_request,
  decode-IsPast_predict_request,
}
use timemachine.Serving.Unknown.{decode_unknown-encode_predict_request}
use timemachine.Serving.Merge.{merged, decode-encode_append_model_spec}
use timemachine.Examples.Messages.{
  model, model-IsValid, model-short, request, request-IsValid, request-short, answer,
  answer-IsValid, answer-short,
}

abbrev C : Codec runtime (Tensor 1)
C = tensor_codec runtime 1

decode-encode_predict_request_example :
    PredictRequest.decode runtime C
      (buffer (finish runtime (PredictRequest.encode runtime C request none)))
      none
    ≡ ok (
      request,
      record {
        buf = PredictRequest.wire runtime C request;
        pos = length (PredictRequest.wire runtime C request);
      },
    )
decode-encode_predict_request_example =
    decode-encode_predict_request runtime 1 request request-IsValid (omega (arith, request-short))

decode-encode_predict_response_example :
    PredictResponse.decode runtime C
      (buffer (finish runtime (PredictResponse.encode runtime C answer none)))
      none
    ≡ ok (
      answer,
      record {
        buf = PredictResponse.wire runtime C answer;
        pos = length (PredictResponse.wire runtime C answer);
      },
    )
decode-encode_predict_response_example =
    decode-encode_predict_response runtime 1 answer answer-IsValid (omega (arith, answer-short))

decode_delimited-encode_delimited_predict_request_example :
    let bytes = finish runtime (PredictRequest.encode_delimited runtime C request none) in
    PredictRequest.decode_delimited runtime C (buffer bytes)
    ≡ ok (request, record { buf = bytes; pos = length bytes })
decode_delimited-encode_delimited_predict_request_example =
    decode_delimited-encode_delimited_predict_request runtime 1 request request-IsValid
      (omega (arith, request-short))

encode_delimited_used_predict_request_example :
    let w : Buffers = record { written = 1 ∷ 2 ∷ []; saved = [] } in
    finish runtime (PredictRequest.encode_delimited runtime C request (some w))
    ≡ sized runtime ((1 ∷ 2 ∷ []) ++ PredictRequest.wire runtime C request)
encode_delimited_used_predict_request_example =
    encode_delimited_used_predict_request runtime 1 request
      (record { written = 1 ∷ 2 ∷ []; saved = [] }) (1 ∷ 2 ∷ []) request-IsValid
      (omega (arith, request-short)) refl

-- The varint of -1 as a number of 64 bits.
abbrev minus_one : List ℕ
minus_one = 255 ∷ 255 ∷ 255 ∷ 255 ∷ 255 ∷ 255 ∷ 255 ∷ 255 ∷ 255 ∷ 1 ∷ []

minus_one-Payload : Payload varint 0 minus_one
minus_one-Payload =
    long_varint (255 ∷ 255 ∷ 255 ∷ 255 ∷ 255 ∷ 255 ∷ 255 ∷ 255 ∷ 255 ∷ []) 1
      (pair, (pair, (pair, (pair, (pair, (pair, (pair, (pair, (pair, _))))))))) (omega arith)
      (omega arith)
  where
    pair : (128 ≤ 255) × (255 < 256)
    pair = (omega arith, omega arith)

decode_unknown-encode_predict_request_example :
    let bytes =
      wire_fields runtime ((24, varint 7) ∷ [])
      ++ (finish runtime (PredictRequest.encode runtime C request none)
          ++ wire_fields runtime ((34, varint 2 ++ (8 ∷ 9 ∷ [])) ∷ (40, minus_one) ∷ [])) in
    PredictRequest.decode runtime C (buffer bytes) none
    ≡ ok (request, record { buf = bytes; pos = length bytes })
decode_unknown-encode_predict_request_example =
    decode_unknown-encode_predict_request runtime C request ((24, varint 7) ∷ [])
      ((34, varint 2 ++ (8 ∷ 9 ∷ [])) ∷ (40, minus_one) ∷ [])
      ((omega arith, refl, varint_value 7 (omega arith)), _)
      (
        (omega arith, refl, sized_value (8 ∷ 9 ∷ []) (omega arith)),
        ((omega arith, refl, minus_one-Payload), _),
      )
      request-IsValid (omega (arith, request-short))

abbrev second : ModelSpec
second = record { name = none; version = some (record { value = none }); signature_name = none }

decode-encode_append_model_spec_example :
    let bytes =
      finish runtime (ModelSpec.encode runtime model none)
      ++ finish runtime (ModelSpec.encode runtime second none) in
    ModelSpec.decode runtime (buffer bytes) none
    ≡ ok (merged model second, record { buf = bytes; pos = length bytes })
unfolding varint
decode-encode_append_model_spec_example =
    decode-encode_append_model_spec runtime model second model-IsValid (_, _, _)
      (omega (arith, model-short)) (omega arith)

abbrev request_start : Reader
request_start = record { buf = PredictRequest.wire runtime C request; pos = 0 }

decode-IsPast_predict_request_example :
    let r' = advance request_start (length (PredictRequest.wire runtime C request)) in
    (r'.buf ≡ request_start.buf)
    × (request_start.pos ≤ r'.pos)
    × IsPast request_start (some (length (PredictRequest.wire runtime C request))) r'
decode-IsPast_predict_request_example =
    decode-IsPast_predict_request runtime 1 request_start
      (some (length (PredictRequest.wire runtime C request))) request
      (advance request_start (length (PredictRequest.wire runtime C request)))
      ((PredictRequest.codec runtime C).decode-wire request request_start [] request-IsValid
        (omega (arith, request-short)) (sym (append-nil (PredictRequest.wire runtime C request))))
