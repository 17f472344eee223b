-- ===== src/Examples/Information.antt =====
-- The results on `ExecutionInformation`.
use timemachine.Base.{◌≡◌, ◌<◌, ◌^◌, none, some, length, arith}
use timemachine.Protobuf.Outcome.{ok}
use timemachine.Protobuf.Codec.{Codec}
use timemachine.Protobuf.Decoder.{buffer}
use timemachine.Protobuf.RoundTrip.{finish}
use timemachine.Sample.Format.{varint}
use timemachine.Sample.Runtime.{runtime}
use timemachine.Tensor.Nested.{Tensor, tensor_codec}
use timemachine.Monitoring.ExecutionMetadata.{ExecutionMetadata}
use timemachine.Monitoring.ExecutionInformation
use timemachine.Monitoring.ExecutionInformation.{ExecutionInformation}
use timemachine.Monitoring.RoundTrip.{decode-encode_execution_information}
use timemachine.Examples.Messages.{
  name, name-IsText, request, request-IsValid, answer, answer-IsValid,
}

abbrev C : Codec runtime (Tensor 1)
C = tensor_codec runtime 1

abbrev metadata : ExecutionMetadata
metadata = record {
  application_id = some 1;
  stage_id = some name;
  model_version_id = some 7;
  signature_name = none;
  request_id = none;
  application_request_id = none;
  application_namespace = none;
  model_name = some name;
  trace_data = some (record { ts = some 1543000000; uid = none });
}

abbrev sent : ExecutionInformation (Tensor 1)
sent = record {
  request = some request;
  error = none;
  response = some answer;
  metadata = some metadata;
}

sent-short : length (ExecutionInformation.wire runtime C sent) < 2 ^ 30
unfolding varint
sent-short = omega arith

decode-encode_execution_information_example :
    ExecutionInformation.decode runtime C
      (buffer (finish runtime (ExecutionInformation.encode runtime C sent none)))
      none
    ≡ ok (
      sent,
      record {
        buf = ExecutionInformation.wire runtime C sent;
        pos = length (ExecutionInformation.wire runtime C sent);
      },
    )
decode-encode_execution_information_example =
    decode-encode_execution_information runtime 1 sent
      (
        request-IsValid,
        _,
        answer-IsValid,
        (omega arith, name-IsText, omega arith, _, _, _, _, name-IsText, (omega arith, _)),
      )
      (omega (arith, sent-short))
