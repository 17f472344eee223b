-- ===== src/Index/ReqRes/Laws.antt =====
-- What index.ts makes of the bytes of a request and its response: the sizes, the header bytes and the
-- number that says which of the two messages the response is.
use timemachine.Base.{
  ℕ, suc, ◌+◌, ◌^◌, ◌<◌, ◌≡◌, ◌≢◌, refl, sym, ap, ap₂, ◌∙◌, List, [], ◌∷◌, ◌++◌, ℤ, ◌+ℤ◌, false,
  length, ◌==◌, if◌then◌else◌, append-nil, length-append, arith,
}
use timemachine.Protobuf.Outcome.{Result, ok, throw, invalid_resp, ◌>>=◌, >>=-step}
use timemachine.Protobuf.Runtime.{Runtime, IsUint32}
use timemachine.Protobuf.Codec.{Codec}
use timemachine.Monitoring.ExecutionError
use timemachine.Serving.PredictRequest
use timemachine.Serving.PredictRequest.{PredictRequest}
use timemachine.Serving.PredictResponse
use timemachine.Index.Bytes.{read_int, slice, to_int32}
use timemachine.Index.Bytes.Laws.{
  be32, read_int-be32, read_int-be32_bits, read_int_second, slice-append,
}
use timemachine.Index.ReqRes.{
  RespOrError, response, execution_error, ReqRes, message_of, decode, decode_resp_or_error,
  as_serving_req_res, resp_case,
}

-- The bytes as they are sent: both sizes, the request and the response.
abbrev pub frame : List ℕ → List ℕ → List ℕ → List ℕ
frame req_body resp_body rest =
    be32 (length req_body) ++ (be32 (length resp_body) ++ (req_body ++ (resp_body ++ rest)))

add_pos : (m n : ℕ) → ℤ.pos m +ℤ ℤ.pos n ≡ ℤ.pos (m + n)
add_pos m n = ground arith

-- All behind the first bytes.
slice_tail :
    (before after : List ℕ)
    → slice (before ++ after) (ℤ.pos (length before)) (ℤ.pos (length (before ++ after))) ≡ after
slice_tail before after =
    ap₂ (λ bytes (n : ℕ). slice bytes (ℤ.pos (length before)) (ℤ.pos n))
      (ap (λ t. before ++ t) (sym (append-nil after))) (length-append before after)
    ∙ slice-append before after []

-- Behind a header that is not 0 stands the body.
decode-body :
    {B : Type 0} (header : ℕ) (body : List ℕ) (f : List ℕ → Result B)
    → header ≢ 0
    → decode (header ∷ body) f ≡ f body
unfolding decode
decode-body header body f h =
    ap (λ b. f (if b then [] else slice (header ∷ body) (ℤ.pos 1) (ℤ.pos (suc (length body))))) no
    ∙ ap f (slice_tail (header ∷ []) body)
  where
    no : (header == 0) ≡ false
    no = ground arith

-- The slices that `asServingReqRes` takes of a frame.
abbrev sizes : List ℕ → List ℕ → List ℕ
sizes a b = be32 (length a) ++ be32 (length b)

request_slice :
    (a b rest : List ℕ)
    → length a < 2 ^ 31
    → slice (frame a b rest) (ℤ.pos 8) (ℤ.pos 8 +ℤ read_int (frame a b rest) 0) ≡ a
request_slice a b rest ha =
    ap (λ z. slice (frame a b rest) (ℤ.pos 8) (ℤ.pos 8 +ℤ z)) (read_int-be32 (length a) _ ha)
    ∙ ap (slice (frame a b rest) (ℤ.pos 8)) (add_pos 8 (length a))
    ∙ slice-append (sizes a b) a (b ++ rest)

response_slice :
    (a b rest : List ℕ)
    → length a < 2 ^ 31
    → length b < 2 ^ 31
    → let start = ℤ.pos 8 +ℤ read_int (frame a b rest) 0 in
      slice (frame a b rest) start (start +ℤ read_int (frame a b rest) 4) ≡ b
response_slice a b rest ha hb =
    ap₂ (λ z t. slice (frame a b rest) (ℤ.pos 8 +ℤ z) (ℤ.pos 8 +ℤ z +ℤ t))
      (read_int-be32 (length a) _ ha) (read_int_second (length a) (length b) (a ++ (b ++ rest)) hb)
    ∙ ap (λ z. slice (frame a b rest) z (z +ℤ ℤ.pos (length b))) (add_pos 8 (length a))
    ∙ ap (slice (frame a b rest) (ℤ.pos (8 + length a))) (add_pos (8 + length a) (length b))
    ∙ ap (λ (n : ℕ). slice (frame a b rest) (ℤ.pos n) (ℤ.pos (n + length b))) before
    ∙ slice-append (sizes a b ++ a) b rest
  where
    before : 8 + length a ≡ length (sizes a b ++ a)
    before = omega arith

module _ (P : Runtime) {A : Type 0} (C : Codec P A) where
  abbrev both : List ℕ → List ℕ → Result (ReqRes A)
  both req_body resp_body = do
    req ← decode req_body (message_of (PredictRequest.decode P C))
    resp ← decode_resp_or_error P C resp_body
    ok (record { req = req; resp = resp })

  -- The two parts of a frame are what is decoded.
  as_serving_req_res-frame_parts :
      (a b rest : List ℕ)
      → length a < 2 ^ 31
      → length b < 2 ^ 31
      → as_serving_req_res P C (frame a b rest) ≡ both a b
  unfolding as_serving_req_res
  as_serving_req_res-frame_parts a b rest ha hb =
      ap₂ both (request_slice a b rest ha) (response_slice a b rest ha hb)

  -- The bytes of a response, or of an error: the number of the message, a header, the message.
  abbrev pub resp_bytes : ℕ → RespOrError A → List ℕ
  resp_bytes header (response m) = be32 3 ++ (header ∷ PredictResponse.wire P C m)
  resp_bytes header (execution_error e) = be32 2 ++ (header ∷ ExecutionError.wire P e)

  abbrev pub IsValidResp : RespOrError A → Type 0
  IsValidResp (response m) = PredictResponse.IsValid P C m
  IsValidResp (execution_error e) = ExecutionError.IsValid e

  -- The number chooses the case, and what stands behind it is the body.
  decode_resp_or_error-number :
      (n : ℕ) (body : List ℕ)
      → n < 2 ^ 31
      → decode_resp_or_error P C (be32 n ++ body) ≡ resp_case P C (ℤ.pos n) body
  unfolding decode_resp_or_error
  decode_resp_or_error-number n body h =
      ap₂ (resp_case P C) (read_int-be32 n body h) (slice_tail (be32 n) body)

  -- A message behind a header that is not 0 is decoded.
  message_behind :
      {M : Type 0} (D : Codec P M) (header : ℕ) (m : M)
      → header ≢ 0
      → D.IsValid m
      → IsUint32 (length (D.wire m))
      → decode (header ∷ D.wire m) (message_of D.decode) ≡ ok m
  message_behind D header m h valid short =
      decode-body header (D.wire m) (message_of D.decode) h
      ∙ >>=-step _ _ (D.decode-buffer m valid short) refl

  decode_resp_or_error-resp_bytes :
      (header : ℕ) (r : RespOrError A)
      → header ≢ 0
      → IsValidResp r
      → length (resp_bytes header r) < 2 ^ 31
      → decode_resp_or_error P C (resp_bytes header r) ≡ ok r
  decode_resp_or_error-resp_bytes header (response m) h valid short =
      decode_resp_or_error-number 3 (header ∷ PredictResponse.wire P C m) (omega arith)
      ∙ (unfold resp_case in
          >>=-step _ m (message_behind (PredictResponse.codec P C) header m h valid (omega arith))
            refl)
  decode_resp_or_error-resp_bytes header (execution_error e) h valid short =
      decode_resp_or_error-number 2 (header ∷ ExecutionError.wire P e) (omega arith)
      ∙ (unfold resp_case in
          >>=-step _ e (message_behind (ExecutionError.codec P) header e h valid (omega arith))
            refl)

  -- `asServingReqRes` returns the request and the response, or the error, that the bytes hold: their
  -- two sizes, each in four bytes in network order, then for each a header byte that is not 0 with
  -- the encoded message behind it, the response after its number (3, or 2 for an error), and then
  -- anything. The messages must be in range, and both parts shorter than 2 ^ 31 bytes.
  pub as_serving_req_res-frame :
      (header header' : ℕ) (req : PredictRequest A) (resp : RespOrError A) (rest : List ℕ)
      → header ≢ 0
      → header' ≢ 0
      → PredictRequest.IsValid P C req
      → IsValidResp resp
      → length (header ∷ PredictRequest.wire P C req) < 2 ^ 31
      → length (resp_bytes header' resp) < 2 ^ 31
      → as_serving_req_res P C
          (frame (header ∷ PredictRequest.wire P C req) (resp_bytes header' resp) rest)
        ≡ ok (record { req = req; resp = resp })
  as_serving_req_res-frame header header' req resp rest h h' valid valid' short short' =
      as_serving_req_res-frame_parts (header ∷ PredictRequest.wire P C req)
        (resp_bytes header' resp) rest short short'
      ∙ >>=-step _ req (message_behind (PredictRequest.codec P C) header req h valid (omega arith))
          (>>=-step _ resp (decode_resp_or_error-resp_bytes header' resp h' valid' short') refl)

  other_number :
      (n : ℕ) (body : List ℕ)
      → n ≢ 2
      → n ≢ 3
      → resp_case P C (to_int32 n) body ≡ throw (invalid_resp (to_int32 n))
  unfolding resp_case
  other_number n body two three = ground arith

  -- With a request that is in range, and any 32-bit number of the response but 2 and 3,
  -- `asServingReqRes` throws the Error of decodeRespOrError with that number, as a signed one, whatever bytes
  -- follow it. The header of the request is not 0, and both parts are shorter than 2 ^ 31 bytes.
  pub as_serving_req_res-invalid :
      (header n : ℕ) (req : PredictRequest A) (body rest : List ℕ)
      → header ≢ 0
      → n < 2 ^ 32
      → n ≢ 2
      → n ≢ 3
      → PredictRequest.IsValid P C req
      → length (header ∷ PredictRequest.wire P C req) < 2 ^ 31
      → length (be32 n ++ body) < 2 ^ 31
      → as_serving_req_res P C (frame (header ∷ PredictRequest.wire P C req) (be32 n ++ body) rest)
        ≡ throw (invalid_resp (to_int32 n))
  as_serving_req_res-invalid header n req body rest h small two three valid short short' =
      as_serving_req_res-frame_parts (header ∷ PredictRequest.wire P C req) (be32 n ++ body) rest
        short short'
      ∙ >>=-step _ req (message_behind (PredictRequest.codec P C) header req h valid (omega arith))
          (ap (λ x. x >>= λ resp. ok (record { req = req; resp = resp })) thrown)
    where
      thrown : decode_resp_or_error P C (be32 n ++ body) ≡ throw (invalid_resp (to_int32 n))
      thrown =
          unfold decode_resp_or_error in
          (ap₂ (resp_case P C) (read_int-be32_bits n body small) (slice_tail (be32 n) body)
            ∙ other_number n body two three)

  -- A header of 0 stands for a message with no bytes, whatever follows it.
  decode-empty_header :
      {M : Type 0} (D : Codec P M) (body : List ℕ)
      → decode (0 ∷ body) (message_of D.decode) ≡ message_of D.decode []
  unfolding decode
  decode-empty_header D body = refl
