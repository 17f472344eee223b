-- ===== src/Index/ReqRes/Total.antt =====
-- `asServingReqRes` of index.ts ends on every input.
use timemachine.Base.{ℕ, ◌≢◌, List, ℤ, none, length, Bool-cases, inl, inr}
use timemachine.Protobuf.Outcome.{stuck, >>=-ne-stuck, >>=-ne-stuck_ok}
use timemachine.Protobuf.Runtime.{Runtime}
use timemachine.Protobuf.Decoder.{buffer}
use timemachine.Protobuf.Codec.{Codec}
use timemachine.Protobuf.RoundTrip.{decode-ne-stuck}
use timemachine.Monitoring.ExecutionError
use timemachine.Serving.PredictRequest
use timemachine.Serving.PredictResponse
use timemachine.Index.Bytes.{read_int, slice}
use timemachine.Index.ReqRes.{
  message_of, decode, decode_resp_or_error, as_serving_req_res, resp_case, is_number,
}

decode_body-ne-stuck :
    (P : Runtime) {M : Type 0} (D : Codec P M) (bytes : List ℕ)
    → decode bytes (message_of D.decode) ≢ stuck
unfolding decode
decode_body-ne-stuck P D bytes =
    >>=-ne-stuck_ok (D.decode (buffer _) none) _ (decode-ne-stuck P D (buffer _) none)

module _ (P : Runtime) {A : Type 0} (C : Codec P A) where
  resp_case-ne-stuck : (num : ℤ) (body : List ℕ) → resp_case P C num body ≢ stuck
  unfolding resp_case
  resp_case-ne-stuck num body = elim (Bool-cases (is_number num 2)) [
    | inl two ↦
        rw (two, resp_case)
          (>>=-ne-stuck_ok _ _ (decode_body-ne-stuck P (ExecutionError.codec P) body))
    | inr other ↦ elim (Bool-cases (is_number num 3)) [
      | inl three ↦
          rw (other, three, resp_case)
            (>>=-ne-stuck_ok _ _ (decode_body-ne-stuck P (PredictResponse.codec P C) body))
      | inr neither ↦ rw (other, neither, resp_case) (λ e. cc)
    ]
  ]

  decode_resp_or_error-ne-stuck : (bytes : List ℕ) → decode_resp_or_error P C bytes ≢ stuck
  unfolding decode_resp_or_error
  decode_resp_or_error-ne-stuck bytes =
      resp_case-ne-stuck (read_int bytes 0) (slice bytes (ℤ.pos 4) (ℤ.pos (length bytes)))

  -- `asServingReqRes` of any bytes returns or throws: no loop of it, or of the messages that it
  -- decodes, goes on for ever.
  pub as_serving_req_res-ne-stuck : (bytes : List ℕ) → as_serving_req_res P C bytes ≢ stuck
  unfolding as_serving_req_res
  as_serving_req_res-ne-stuck bytes =
      >>=-ne-stuck _ _ (decode_body-ne-stuck P (PredictRequest.codec P C) _) λ req.
        >>=-ne-stuck_ok _ (λ resp. record { req = req; resp = resp })
          (decode_resp_or_error-ne-stuck _)
