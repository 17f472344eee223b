-- ===== src/Index/ReqRes.antt =====
-- `decode`, `asServingReqRes` and `decodeRespOrError` of tsclient/recstore-ts/src/index.ts.
pub mod Laws
pub mod Total
use timemachine.Base.{
  ℕ, List, [], ◌∷◌, ℤ, ◌+ℤ◌, Option, none, Bool, true, false, length, ◌==◌, if◌then◌else◌,
}
use timemachine.Protobuf.Outcome.{Result, ok, throw, invalid_resp, ◌>>=◌}
use timemachine.Protobuf.Runtime.{Runtime, Reader}
use timemachine.Protobuf.Decoder.{Source, buffer}
use timemachine.Protobuf.Codec.{Codec}
use timemachine.Monitoring.ExecutionError
use timemachine.Monitoring.ExecutionError.{ExecutionError}
use timemachine.Serving.PredictRequest
use timemachine.Serving.PredictRequest.{PredictRequest}
use timemachine.Serving.PredictResponse
use timemachine.Serving.PredictResponse.{PredictResponse}
use timemachine.Index.Bytes.{read_int, slice}

-- `PredictResponse | ExecutionError`
pub data RespOrError (A : Type 0) : Type 0 where
  response : PredictResponse A → RespOrError A
  execution_error : ExecutionError → RespOrError A

pub record ReqRes (A : Type 0) : Type 0 where
  pub req : PredictRequest A
  pub resp : RespOrError A

-- `header === 0`, with `undefined` for the header of no bytes.
abbrev pub is_empty_header : List ℕ → Bool
is_empty_header [] = false
is_empty_header (header ∷ body) = header == 0

-- `case n:` on a number.
abbrev pub is_number : ℤ → ℕ → Bool
is_number (ℤ.pos n) k = n == k
is_number (ℤ.negsuc n) k = false

-- A message type's `decode`, given a body, returns the message.
abbrev pub message_of : {M : Type 0} → (Source → Option ℕ → Result (M × Reader)) → List ℕ → Result M
message_of decode_message body = do (m, r) ← decode_message (buffer body) none; ok m

unfoldable pub decode : {B : Type 0} → List ℕ → (List ℕ → Result B) → Result B
decode bytes f =
    let body : List ℕ = slice bytes (ℤ.pos 1) (ℤ.pos (length bytes)) in
    f (if is_empty_header bytes then [] else body)

module _ (P : Runtime) {A : Type 0} (C : Codec P A) where
  -- `switch (num)`
  unfoldable pub resp_case : ℤ → List ℕ → Result (RespOrError A)
  resp_case num body = elim (is_number num 2) [
    | true ↦ do e ← decode body (message_of (ExecutionError.decode P)); ok (execution_error e)
    | false ↦ elim (is_number num 3) [
      | true ↦ do m ← decode body (message_of (PredictResponse.decode P C)); ok (response m)
      | false ↦ throw (invalid_resp num)
    ]
  ]

  unfoldable pub decode_resp_or_error : List ℕ → Result (RespOrError A)
  unfolding resp_case
  decode_resp_or_error bytes =
      resp_case (read_int bytes 0) (slice bytes (ℤ.pos 4) (ℤ.pos (length bytes)))

  unfoldable pub as_serving_req_res : List ℕ → Result (ReqRes A)
  as_serving_req_res bytes =
      let req_size = read_int bytes 0 in
      let resp_size = read_int bytes 4 in
      let req_body = slice bytes (ℤ.pos 8) (ℤ.pos 8 +ℤ req_size) in
      let resp_body = slice bytes (ℤ.pos 8 +ℤ req_size) (ℤ.pos 8 +ℤ req_size +ℤ resp_size) in
      do
        req ← decode req_body (message_of (PredictRequest.decode P C))
        resp ← decode_resp_or_error resp_body
        ok (record { req = req; resp = resp })
