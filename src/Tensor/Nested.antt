-- ===== src/Tensor/Nested.antt =====
-- Tensors inside tensors: a TensorProto of compiled.js holds variants and maps of TensorProtos, and
-- their `encode` and `decode` call one another. `Tensor n` holds tensors nested `n` deep at most.
-- Its `decode` has room for `n` calls inside its own: on bytes that are nested more deeply the call
-- stack overflows, and it throws.
use timemachine.Base.{ℕ, zero, suc, []}
use timemachine.Protobuf.Outcome.{throw, stack_overflow}
use timemachine.Protobuf.Runtime.{Runtime}
use timemachine.Protobuf.Loop.{thrown}
use timemachine.Protobuf.Codec.{Codec, or_create}
use timemachine.Tensor.TensorProto.{TensorProto}
use timemachine.Tensor.TensorProto.Laws

abbrev pub Tensor : ℕ → Type 0
Tensor zero = TensorProto ⊥
Tensor (suc n) = TensorProto (Tensor n)

module _ (P : Runtime) where
  -- No room for a call.
  abbrev no_room : Codec P ⊥
  no_room = record {
    IsValid = λ m. ⊥;
    wire = λ m. [];
    encode = λ m w. or_create P w;
    decode = λ source n. throw stack_overflow;
    encode-Writes = λ m w valid short. absurd valid;
    decode-wire = λ m r rest valid short at. absurd valid;
    decode-buffer = λ m valid short. absurd valid;
    decode-Ahead = λ source n. thrown;
    encode_fresh = λ m. absurd m;
  }

  abbrev pub tensor_codec : (n : ℕ) → Codec P (Tensor n)
  tensor_codec zero = Laws.codec P no_room
  tensor_codec (suc n) = Laws.codec P (tensor_codec n)
