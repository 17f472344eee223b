-- ===== src/Serving/Unknown.antt =====
-- `PredictRequest.decode` of tsclient/recstore-ts/src/compiled.js on bytes with fields of a later
-- version of the message.
use timemachine.Base.{
  ℕ, ◌/◌, ◌≡◌, sym, ap, subst, List, ◌++◌, Bool, false, ◌||◌, ◌==◌, none, length, All, arith,
}
use timemachine.Protobuf.Outcome.{ok}
use timemachine.Protobuf.Runtime.{Runtime, Reader, Buffers, IsUint32}
use timemachine.Protobuf.Codec.{Codec}
use timemachine.Protobuf.Decoder.{buffer}
use timemachine.Protobuf.Message.{skip_field}
use timemachine.Protobuf.RoundTrip.{finish, encode_fresh-buffers}
use timemachine.Protobuf.Unknown.{wire_fields, IsUnknown, decode-unknown}
use timemachine.Serving.PredictRequest
use timemachine.Serving.PredictRequest.{PredictRequest}

-- The numbers of the fields of a PredictRequest.
abbrev pub is_known : ℕ → Bool
is_known number = number == 1 || number == 2

module _ (P : Runtime) {A : Type 0} (C : Codec P A) where
  skips :
      (m : PredictRequest A) (tag : ℕ) (r : Reader)
      → is_known (tag / 8) ≡ false
      → PredictRequest.on_field P C m tag r ≡ skip_field P m tag r
  unfolding PredictRequest.on_field
  skips m tag r h = ground arith

  -- `PredictRequest.decode` passes over fields with another number than 1 and 2, in front of what
  -- `PredictRequest.encode` writes and behind it: it returns the message that was encoded, and has
  -- read all bytes. The value of such a field is a varint of ten bytes at most, eight bytes, four
  -- bytes, or a length below 2 ^ 32 with as many bytes, each with its wire type; groups are left
  -- out. The message's parts must be in range, its keys distinct and plain, and it must be shorter
  -- than 2 ^ 32 bytes.
  pub decode_unknown-encode_predict_request :
      (m : PredictRequest A) (before after : List (ℕ × List ℕ))
      → All (IsUnknown P is_known) before
      → All (IsUnknown P is_known) after
      → PredictRequest.IsValid P C m
      → IsUint32 (length (PredictRequest.wire P C m))
      → let bytes =
          wire_fields P before
          ++ (finish P (PredictRequest.encode P C m none) ++ wire_fields P after) in
        PredictRequest.decode P C (buffer bytes) none
        ≡ ok (m, record { buf = bytes; pos = length bytes })
  decode_unknown-encode_predict_request m before after hb ha valid short =
      subst
        (λ written.
          let bytes = wire_fields P before ++ (written ++ wire_fields P after) in
          PredictRequest.decode P C (buffer bytes) none
          ≡ ok (m, record { buf = bytes; pos = length bytes }))
        (sym (ap Buffers.written (encode_fresh-buffers P (PredictRequest.codec P C) m valid short)))
        (decode-unknown P (PredictRequest.parts P C) is_known skips m before after hb ha valid
          short)
