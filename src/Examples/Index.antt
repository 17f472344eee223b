-- ===== src/Examples/Index.antt =====
-- The results on index.ts and on the bytes that the server sends.
use timemachine.Base.{◌≡◌, ◌≢◌, ℤ, List, [], ◌∷◌, ◌++◌, map, All, arith}
use timemachine.Protobuf.Outcome.{Failure, ok, throw, stuck, invalid_resp}
use timemachine.Protobuf.Codec.{Codec}
use timemachine.Sample.Runtime.{runtime}
use timemachine.Sample.Buffers.{byte_buffers, binary_writer}
use timemachine.Tensor.Nested.{Tensor, tensor_codec}
use timemachine.Serving.PredictRequest
use timemachine.Index.Bytes.{read_long}
use timemachine.Index.Bytes.Laws.{be32, read_long-be32}
use timemachine.Index.ReqRes.{response, as_serving_req_res}
use timemachine.Index.ReqRes.Laws.{
  frame, resp_bytes, as_serving_req_res-frame, as_serving_req_res-invalid,
}
use timemachine.Index.ReqRes.Total.{as_serving_req_res-ne-stuck}
use timemachine.Index.TsRecords.{decode_ts_record}
use timemachine.Index.TsRecords.Laws.{rows_bytes, record_of}
use timemachine.Index.TsRecords.Total.{
  IsSingle, decode_ts_record-ne-stuck, decode_ts_record-IsSingle, decode_ts_record-truncated,
}
use timemachine.Server.GetRange.{Row, IsRow, send_rows}
use timemachine.Server.GetRange.Client.{decode_ts_record-send_rows}
use timemachine.Examples.Messages.{
  request, request-IsValid, request-short, answer, answer-IsValid, answer-short,
}

abbrev C : Codec runtime (Tensor 1)
C = tensor_codec runtime 1

as_serving_req_res-frame_example :
    as_serving_req_res runtime C (
      frame
        (1 ∷ PredictRequest.wire runtime C request)
        (resp_bytes runtime C 1 (response answer))
        (9 ∷ []))
    ≡ ok (record { req = request; resp = response answer })
as_serving_req_res-frame_example =
    as_serving_req_res-frame runtime C 1 1 request (response answer) (9 ∷ []) (omega arith)
      (omega arith) request-IsValid answer-IsValid (omega (arith, request-short))
      (omega (arith, answer-short))

as_serving_req_res-invalid_example :
    as_serving_req_res runtime C
      (frame (1 ∷ PredictRequest.wire runtime C request) (be32 0xffffffff ++ (7 ∷ [])) [])
    ≡ throw (invalid_resp (ℤ.negsuc 0))
as_serving_req_res-invalid_example =
    as_serving_req_res-invalid runtime C 1 0xffffffff request (7 ∷ []) [] (omega arith)
      (omega arith) (omega arith) (omega arith) request-IsValid (omega (arith, request-short))
      (omega arith)

as_serving_req_res-ne-stuck_example :
    as_serving_req_res runtime C (0 ∷ 0 ∷ 0 ∷ 9 ∷ 0 ∷ 0 ∷ 0 ∷ 1 ∷ 1 ∷ 10 ∷ []) ≢ stuck
as_serving_req_res-ne-stuck_example =
    as_serving_req_res-ne-stuck runtime C (0 ∷ 0 ∷ 0 ∷ 9 ∷ 0 ∷ 0 ∷ 0 ∷ 1 ∷ 1 ∷ 10 ∷ [])

-- 2 ^ 32 is read as 1.
read_long-be32_example : read_long (be32 1 ++ (be32 0 ++ [])) 0 ≡ ℤ.pos 1
read_long-be32_example = read_long-be32 1 0 [] (omega arith) (omega arith)

abbrev rows : List Row
rows =
    record { timestamp = 1543000000; unique = 1; body = 1 ∷ 2 ∷ 3 ∷ [] }
    ∷ record { timestamp = 1543000000; unique = 2; body = [] }
    ∷ []

rows-IsRow : All IsRow rows
rows-IsRow = ((omega arith, omega arith, omega arith), ((omega arith, omega arith, omega arith), _))

decode_ts_record-send_rows_example :
    decode_ts_record byte_buffers (send_rows binary_writer rows)
    ≡ ok (map (record_of byte_buffers) rows)
decode_ts_record-send_rows_example =
    decode_ts_record-send_rows binary_writer byte_buffers rows rows-IsRow

decode_ts_record-ne-stuck_example : decode_ts_record byte_buffers (1 ∷ 2 ∷ 3 ∷ []) ≢ stuck
decode_ts_record-ne-stuck_example = decode_ts_record-ne-stuck byte_buffers (1 ∷ 2 ∷ 3 ∷ [])

decode_ts_record-IsSingle_example : All (IsSingle byte_buffers) (map (record_of byte_buffers) rows)
decode_ts_record-IsSingle_example =
    decode_ts_record-IsSingle byte_buffers (send_rows binary_writer rows)
      (map (record_of byte_buffers) rows)
      (decode_ts_record-send_rows binary_writer byte_buffers rows rows-IsRow)

decode_ts_record-truncated_example :
    (e : Failure) × (decode_ts_record byte_buffers (rows_bytes rows ++ (0 ∷ 0 ∷ [])) ≡ throw e)
decode_ts_record-truncated_example =
    decode_ts_record-truncated byte_buffers rows (0 ∷ 0 ∷ []) rows-IsRow (omega arith) (omega arith)
