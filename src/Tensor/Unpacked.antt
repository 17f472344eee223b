-- ===== src/Tensor/Unpacked.antt =====
-- `TensorProto.decode` of tsclient/recstore-ts/src/compiled.js on a field that may be packed and is
-- not.
use timemachine.Base.{◌≡◌, refl, sym, ap, subst, ℤ, List, ◌++◌, none, length, All, arith}
use timemachine.Protobuf.Outcome.{Result, ok, throw, stuck, attempt, ◌>>=◌}
use timemachine.Protobuf.Runtime.{Runtime, Reader, Buffers, IsUint32, IsInt32}
use timemachine.Protobuf.Codec.{Codec}
use timemachine.Protobuf.Decoder.{buffer, Consumes-append, decode_message-buffer}
use timemachine.Protobuf.Message.{store}
use timemachine.Protobuf.Repeated.{append_item}
use timemachine.Protobuf.Packed.{read_packed}
use timemachine.Protobuf.ScalarList.{wire_scalars, Consumes-scalars}
use timemachine.Protobuf.RoundTrip.{finish, encode_fresh-buffers}
use timemachine.Tensor.TensorProto
use timemachine.Tensor.TensorProto.{TensorProto}
use timemachine.Tensor.TensorProto.Laws

module _ (P : Runtime) {A : Type 0} (C : Codec P A) where
  one_item :
      (m : TensorProto A) (done : List ℤ) (r : Reader)
      → TensorProto.on_field P C (record m { int_val = done }) 56 r
        ≡ store (attempt (P.int32.read r)) (λ a. record m { int_val = append_item done a })
  unfolding TensorProto.on_field read_packed store
  one_item m done r = by_cases (attempt (P.int32.read r))
    where
      by_cases :
          (x : Result (ℤ × Reader))
          → store (x >>= λ (a, r₁). ok (append_item done a, r₁)) (λ v. record m { int_val = v })
            ≡ store x (λ a. record m { int_val = append_item done a })
      by_cases (ok a) = refl
      by_cases (throw e) = refl
      by_cases stuck = refl

  -- What `TensorProto.encode` writes for a tensor, with 32-bit numbers behind it that stand each in
  -- a field `intVal` of its own instead of packed in one, is decoded by `TensorProto.decode` to the
  -- tensor with these numbers behind its own in `intVal`. The parts of the tensor must be in range,
  -- the numbers signed ones of 32 bits, and the tensor shorter than 2 ^ 32 bytes.
  pub decode_unpacked-encode_tensor :
      (m : TensorProto A) (l : List ℤ)
      → TensorProto.IsValid P C m
      → IsUint32 (length (TensorProto.wire P C m))
      → All IsInt32 l
      → let bytes = finish P (TensorProto.encode P C m none) ++ wire_scalars P P.int32 56 l in
        TensorProto.decode P C (buffer bytes) none
        ≡ ok (record m { int_val = m.int_val ++ l }, record { buf = bytes; pos = length bytes })
  decode_unpacked-encode_tensor m l valid short ints =
      subst
        (λ written.
          let bytes = written ++ wire_scalars P P.int32 56 l in
          TensorProto.decode P C (buffer bytes) none
          ≡ ok (record m { int_val = m.int_val ++ l }, record { buf = bytes; pos = length bytes }))
        (sym (ap Buffers.written (encode_fresh-buffers P (Laws.codec P C) m valid short)))
        (decode_message-buffer P TensorProto.empty (TensorProto.on_field P C)
          (Laws.on_field-Ahead P C) (record m { int_val = m.int_val ++ l }) _
          (Consumes-append P (TensorProto.on_field P C) (TensorProto.wire P C m) _
            (Laws.wire-Consumes P C m valid short)
            (Consumes-scalars P P.int32 (TensorProto.on_field P C) (λ xs. record m { int_val = xs })
              56 m.int_val l (omega arith) ints (one_item m))))
