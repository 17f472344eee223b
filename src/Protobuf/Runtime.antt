-- ===== src/Protobuf/Runtime.antt =====
-- The operations of protobufjs that the compiled code calls, and what is relied on of each.
use timemachine.Base.{
  ℕ, ℤ, ◌+◌, ◌^◌, ◌≤◌, ◌<◌, ◌≡◌, List, [], ◌∷◌, ◌++◌, Bool, true, false, ◌&&◌, leb, Option, some,
  length, drop, All,
}
use mathlib.Core.Bool.{not}
use timemachine.Protobuf.Outcome.{Text}

-- A reader: its bytes, and the position of the next one. `reader.len` is `length r.buf`.
pub record Reader : Type 0 where
  pub buf : List ℕ
  pub pos : ℕ

-- The bytes that are still to be read.
abbrev pub At : Reader → List ℕ → Type 0
At r bytes = drop r.pos r.buf ≡ bytes

-- `reader.pos += n`
abbrev pub advance : Reader → ℕ → Reader
advance r n = record r { pos = r.pos + n }

-- What a writer holds: the bytes since the last `fork`, and those that each `fork` set aside.
pub record Buffers : Type 0 where
  pub written : List ℕ
  pub saved : List (List ℕ)

abbrev pub append_bytes : Buffers → List ℕ → Buffers
append_bytes b bytes = record b { written = b.written ++ bytes }

abbrev pub IsUint32 : ℕ → Type 0
IsUint32 n = n < 2 ^ 32

abbrev pub IsInt32 : ℤ → Type 0
IsInt32 (ℤ.pos n) = n < 2 ^ 31
IsInt32 (ℤ.negsuc n) = n < 2 ^ 31

-- An int64 or a uint64 is a Long, given by its 64 bits. So is a number that fits a double by the bits
-- of the double, and one that fits a float by the 32 bits of the float.
abbrev pub IsLong : ℕ → Type 0
IsLong n = n < 2 ^ 64

abbrev pub IsBytes : List ℕ → Type 0
IsBytes bytes = All (λ b. b < 256) bytes

abbrev pub AnyBool : Bool → Type 0
AnyBool b = Unit

-- One scalar type: the writer's method, the reader's method, and the bytes between them. A read
-- takes at least one byte, and none past the end.
pub record Scalar (Writer : Type 0) (buffers : Writer → Buffers) (A : Type 0) (InRange : A → Type 0)
    : Type 0 where
  pub put : Writer → A → Writer
  pub read : Reader → Option (A × Reader)
  pub wire : A → List ℕ
  pub put-buffers :
      (w : Writer) (a : A) → InRange a → buffers (put w a) ≡ append_bytes (buffers w) (wire a)
  pub read-wire :
      (r : Reader) (a : A) (rest : List ℕ)
      → InRange a
      → At r (wire a ++ rest)
      → read r ≡ some (a, advance r (length (wire a)))
  pub read-forward :
      (r r' : Reader) (a : A)
      → read r ≡ some (a, r')
      → (r'.buf ≡ r.buf) × (r.pos < r'.pos) × (r'.pos ≤ length r.buf)

-- The value of a field of each wire type, as the format lays it out after the tag: a varint, eight
-- bytes, a length with as many bytes, four bytes. A varint is that of a number of 32 bits, or up to ten
-- bytes, of which all but the last have their highest bit set. Groups are left out.
pub data Payload (varint : ℕ → List ℕ) : ℕ → List ℕ → Type 0 where
  varint_value : (n : ℕ) → IsUint32 n → Payload varint 0 (varint n)
  long_varint :
      (front : List ℕ) (last : ℕ)
      → All (λ b. (128 ≤ b) × (b < 256)) front
      → length front < 10
      → last < 128
      → Payload varint 0 (front ++ (last ∷ []))
  fixed64_value : (bytes : List ℕ) → length bytes ≡ 8 → Payload varint 1 bytes
  sized_value :
      (bytes : List ℕ) → IsUint32 (length bytes) → Payload varint 2 (varint (length bytes) ++ bytes)
  fixed32_value : (bytes : List ℕ) → length bytes ≡ 4 → Payload varint 5 bytes

-- Well-formed UTF-16: each high surrogate stands before a low one, and no low one stands alone.
abbrev is_high : ℕ → Bool
is_high u = leb 0xd800 u && leb u 0xdbff

abbrev is_low : ℕ → Bool
is_low u = leb 0xdc00 u && leb u 0xdfff

abbrev pub well_formed : Bool → Text → Bool
well_formed true [] = false
well_formed false [] = true
well_formed true (u ∷ us) = is_low u && well_formed false us
well_formed false (u ∷ us) = not (is_low u) && well_formed (is_high u) us

abbrev pub IsText : Text → Type 0
IsText t = (well_formed false t ≡ true) × All (λ u. u < 0x10000) t

-- `$protobuf.Reader` and `$protobuf.Writer`. A method that changes its writer or reader returns it;
-- `none` is a throw.
pub record Runtime : Type 1 where
  pub Writer : Type 0
  pub buffers : Writer → Buffers
  pub create_writer : Writer
  pub create_reader : List ℕ → Reader
  pub fork : Writer → Writer
  pub ldelim : Writer → Writer
  pub uint32 : Scalar Writer buffers ℕ IsUint32
  pub int64 : Scalar Writer buffers ℕ IsLong
  pub uint64 : Scalar Writer buffers ℕ IsLong
  pub int32 : Scalar Writer buffers ℤ IsInt32
  pub float : Scalar Writer buffers ℕ IsUint32
  pub double : Scalar Writer buffers ℕ IsLong
  pub bool : Scalar Writer buffers Bool AnyBool
  pub string : Scalar Writer buffers Text IsText
  pub bytes : Scalar Writer buffers (List ℕ) IsBytes
  -- `skip()` with no length skips a varint.
  pub skip : Reader → Option Reader
  pub skip_type : ℕ → Reader → Option Reader
  pub create_writer-buffers : buffers create_writer ≡ record { written = []; saved = [] }
  pub create_reader_lem : (b : List ℕ) → create_reader b ≡ record { buf = b; pos = 0 }
  -- A number below 128 is its own varint.
  pub wire_small : (n : ℕ) → n < 128 → uint32.wire n ≡ n ∷ []
  -- `fork` sets the bytes so far aside; `ldelim` puts the length of those since and then them behind
  -- what was set aside.
  pub fork-buffers :
      (w : Writer)
      → buffers (fork w) ≡ record { written = []; saved = (buffers w).written ∷ (buffers w).saved }
  pub ldelim-buffers :
      (w : Writer) (inner outer : List ℕ) (more : List (List ℕ))
      → buffers w ≡ record { written = inner; saved = outer ∷ more }
      → IsUint32 (length inner)
      → buffers (ldelim w)
        ≡ record { written = outer ++ (uint32.wire (length inner) ++ inner); saved = more }
  -- With nothing set aside `ldelim` starts over, and writes the length of all there was and then it.
  pub ldelim_reset :
      (w : Writer) (inner : List ℕ)
      → buffers w ≡ record { written = inner; saved = [] }
      → IsUint32 (length inner)
      → buffers (ldelim w) ≡ record { written = uint32.wire (length inner) ++ inner; saved = [] }
  pub skip-varint :
      (r : Reader) (n : ℕ) (rest : List ℕ)
      → IsUint32 n
      → At r (uint32.wire n ++ rest)
      → skip r ≡ some (advance r (length (uint32.wire n)))
  pub skip-forward : (r r' : Reader) → skip r ≡ some r' → (r'.buf ≡ r.buf) × (r.pos ≤ r'.pos)
  pub skip_type-Payload :
      (wire_type : ℕ) (payload : List ℕ) (r : Reader) (rest : List ℕ)
      → Payload uint32.wire wire_type payload
      → At r (payload ++ rest)
      → skip_type wire_type r ≡ some (advance r (length payload))
  pub skip_type-forward :
      (wire_type : ℕ) (r r' : Reader)
      → skip_type wire_type r ≡ some r'
      → (r'.buf ≡ r.buf) × (r.pos ≤ r'.pos)
