-- ===== src/Index/Bytes.antt =====
-- `readInt`, `readLong` and the slices of tsclient/recstore-ts/src/index.ts. The operators `<<` and
-- `|` of JavaScript work on 32 bits: a number stands here for its bits until it is returned.
pub mod Laws
use timemachine.Base.{
  ℕ, zero, suc, ◌+◌, ◌-◌, ◌*◌, ◌%◌, ◌^◌, List, [], ◌∷◌, ℤ, length, take, drop, ltb, if◌then◌else◌,
}
use Prim.Native.Nat.{bit_or, min}

-- `b[i]`, where `undefined` counts as 0 in a shift.
abbrev pub byte_at : List ℕ → ℕ → ℕ
byte_at [] i = 0
byte_at (x ∷ xs) zero = x
byte_at (x ∷ xs) (suc i) = byte_at xs i

-- `x << k`: only the low five bits of `k` count.
abbrev pub shift_left : ℕ → ℕ → ℕ
shift_left x k = x * 2 ^ (k % 32) % 2 ^ 32

-- 32 bits as a signed number.
abbrev pub to_int32 : ℕ → ℤ
to_int32 n = if ltb n (2 ^ 31) then ℤ.pos n else ℤ.negsuc (2 ^ 32 - 1 - n)

-- The bits that `readInt` returns.
unfoldable pub read_word : List ℕ → ℕ → ℕ
read_word b offset =
    let x₁ = shift_left (byte_at b (0 + offset)) 24 in
    let x₂ = shift_left (byte_at b (1 + offset)) 16 in
    let x₃ = shift_left (byte_at b (2 + offset)) 8 in
    let x₄ = shift_left (byte_at b (3 + offset)) 0 in bit_or (bit_or (bit_or x₁ x₂) x₃) x₄

unfoldable pub read_int : List ℕ → ℕ → ℤ
read_int b offset = to_int32 (read_word b offset)

unfoldable pub read_long : List ℕ → ℕ → ℤ
read_long b offset =
    let head = shift_left (read_word b offset) 32 in
    let tail = read_word b (offset + 4) in to_int32 (bit_or head tail)

-- An index of `slice`: a negative one counts from the end, and none passes the end.
abbrev pub slice_index : ℕ → ℤ → ℕ
slice_index n (ℤ.pos k) = min k n
slice_index n (ℤ.negsuc k) = n - suc k

-- `new Uint8Array(data.slice(start, end))`
unfoldable pub slice : List ℕ → ℤ → ℤ → List ℕ
slice xs start end =
    take (slice_index (length xs) end - slice_index (length xs) start)
      (drop (slice_index (length xs) start) xs)
