-- ===== src/Sample/Buffers.antt =====
-- A `ByteBuffer` and a `BinaryWriter` in network order that keep what is relied on of them. A number
-- stands for itself here.
use timemachine.Base.{
  ℕ, ◌+◌, ◌-◌, ◌*◌, ◌^◌, ◌≤◌, ◌<◌, ◌≡◌, refl, ap, ◌∙◌, ℤ, List, [], ◌∷◌, ◌++◌, Option, none, some,
  length, take, drop, length-drop, take-append, lengths, arith, leb, ◌==◌, le→leb, if◌then◌else◌,
  Option-cases, inl, inr,
}
use timemachine.Protobuf.Runtime.{Reader, At, advance, IsLong}
use timemachine.Index.Bytes.{to_int32}
use timemachine.Index.Bytes.Laws.{be32}
use timemachine.Index.TsRecords.{ByteBuffers, be64}
use timemachine.Server.GetRange.{BinaryWriter}

-- The number that bytes stand for, behind those that were read.
abbrev pub from_be : ℕ → List ℕ → ℕ
from_be acc [] = acc
from_be acc (b ∷ bs) = from_be (acc * 256 + b) bs

-- The next `k` bytes, if there are as many.
unfoldable pub next_bytes : ℕ → Reader → Option (List ℕ × Reader)
next_bytes k r =
    if leb k (length (drop r.pos r.buf))
    then some (take k (drop r.pos r.buf), advance r k)
    else none

abbrev pub as_value : {A : Type 0} → (List ℕ → A) → Option (List ℕ × Reader) → Option (A × Reader)
as_value f none = none
as_value f (some (bytes, r)) = some (f bytes, r)

abbrev pub read_bytes : ℤ → Reader → Option (List ℕ × Reader)
read_bytes (ℤ.pos n) r = next_bytes n r
read_bytes (ℤ.negsuc n) r = none

pub next_bytes-append :
    (r : Reader) (bytes rest : List ℕ)
    → At r (bytes ++ rest)
    → next_bytes (length bytes) r ≡ some (bytes, advance r (length bytes))
unfolding next_bytes
next_bytes-append r bytes rest at =
    ap
      (λ bs.
        if leb (length bytes) (length bs)
        then some (take (length bytes) bs, advance r (length bytes))
        else none)
      at
    ∙ rw (le→leb (length bytes) (length (bytes ++ rest)) (omega lengths), take-append bytes rest)
        refl

next_bytes-forward :
    (k : ℕ) (r r' : Reader) (bytes : List ℕ)
    → next_bytes k r ≡ some (bytes, r')
    → (r'.buf ≡ r.buf) × (r'.pos ≡ r.pos + k) × (k ≤ length r.buf - r.pos)
unfolding next_bytes
next_bytes-forward k r r' bytes h = ground (arith, length-drop r.pos r.buf)

pub from_be-be32 : (n : ℕ) → n < 2 ^ 32 → from_be 0 (be32 n) ≡ n
from_be-be32 n h = omega arith

pub from_be-be64 : (n : ℕ) → IsLong n → from_be 0 (be64 n) ≡ n
from_be-be64 n h = omega arith

as_value-forward :
    {A : Type 0} (f : List ℕ → A) (k : ℕ) (r r' : Reader) (a : A)
    → as_value f (next_bytes k r) ≡ some (a, r')
    → (r'.buf ≡ r.buf) × (r'.pos ≡ r.pos + k) × (k ≤ length r.buf - r.pos)
as_value-forward f k r r' a h = elim (Option-cases (next_bytes k r)) [
  | inl e ↦ ground (arith, e)
  | inr ((bytes, r₁), e) ↦ ground (arith, e, next_bytes-forward k r r₁ bytes e)
]

-- What a read of one byte or more does to the buffer.
pub reads-forward :
    {A : Type 0} (f : List ℕ → A) (k : ℕ) (r r' : Reader) (a : A)
    → 0 < k
    → as_value f (next_bytes k r) ≡ some (a, r')
    → (r'.buf ≡ r.buf) × (r'.pos ≡ r.pos + k) × (r'.pos ≤ length r.buf)
reads-forward f k r r' a h e =
    let (same, next, room) = as_value-forward f k r r' a e in (same, next, omega arith)

pub read_bytes-forward :
    (r r' : Reader) (z : ℤ) (bytes : List ℕ)
    → read_bytes z r ≡ some (bytes, r')
    → (r'.buf ≡ r.buf) × (r.pos ≤ r'.pos)
read_bytes-forward r r' (ℤ.pos n) bytes e =
    let (same, next, room) = next_bytes-forward n r r' bytes e in (same, omega arith)
read_bytes-forward r r' (ℤ.negsuc n) bytes e = cc

pub to_int32_small : (n : ℕ) → n < 2 ^ 31 → to_int32 n ≡ ℤ.pos n
to_int32_small n h = ground arith

abbrev pub byte_buffers : ByteBuffers
byte_buffers = record {
  Number = ℕ;
  to_number = λ n. n;
  number_eq = ◌==◌;
  to_text = λ n. n ∷ [];
  wrap = λ bytes. record { buf = bytes; pos = 0 };
  read_long = λ r. as_value (from_be 0) (next_bytes 8 r);
  read_int = λ r. as_value (λ bs. to_int32 (from_be 0 bs)) (next_bytes 4 r);
  read_bytes = read_bytes;
  wrap_lem = λ bytes. refl;
  read_long-be64 = λ r n rest long at.
      ap (as_value (from_be 0)) (next_bytes-append r (be64 n) rest at)
      ∙ ap (λ (v : ℕ). some (v, advance r 8)) (from_be-be64 n long);
  read_int-be32 = λ r n rest small at.
      ap (as_value (λ bs. to_int32 (from_be 0 bs))) (next_bytes-append r (be32 n) rest at)
      ∙ ap (λ (v : ℕ). some (to_int32 v, advance r 4)) (from_be-be32 n (omega arith))
      ∙ ap (λ v. some (v, advance r 4)) (to_int32_small n small);
  read_bytes-append = next_bytes-append;
  read_long-forward = λ r r' n. reads-forward (from_be 0) 8 r r' n (omega arith);
  read_int-forward = λ r r' z. reads-forward (λ bs. to_int32 (from_be 0 bs)) 4 r r' z (omega arith);
  read_bytes-forward = read_bytes-forward;
}

abbrev pub binary_writer : BinaryWriter
binary_writer = record {
  put_long = be64;
  put_int = be32;
  put_long_lem = λ n h. refl;
  put_int_lem = λ n h. refl;
}
