-- ===== src/Index/Bytes/Laws.antt =====
-- What `readInt` and the slices of index.ts return on bytes in network order.
use timemachine.Base.{
  ℕ, ◌+◌, ◌-◌, ◌*◌, ◌/◌, ◌%◌, ◌^◌, ◌<◌, ◌≡◌, refl, ap, ap₂, ◌∙◌, List, [], ◌∷◌, ◌++◌, ℤ, length,
  take, drop, take-append, drop-append, lengths, arith,
}
use timemachine.Base.Bits.{bit_or_disjoint}
use Prim.Native.Nat.{bit_or, min}
use timemachine.Index.Bytes.{shift_left, to_int32, read_word, read_int, read_long, slice}

-- The four bytes of a number, the highest first.
abbrev pub be32 : ℕ → List ℕ
be32 n = (n / 2 ^ 24 % 256) ∷ (n / 2 ^ 16 % 256) ∷ (n / 2 ^ 8 % 256) ∷ (n % 256) ∷ []

or_bytes :
    (a b c d : ℕ)
    → a < 256
    → b < 256
    → c < 256
    → d < 256
    → bit_or (bit_or (bit_or (a * 2 ^ 24) (b * 2 ^ 16)) (c * 2 ^ 8)) d
      ≡ a * 2 ^ 24 + b * 2 ^ 16 + c * 2 ^ 8 + d
or_bytes a b c d ha hb hc hd =
    ap (λ (t : ℕ). bit_or (bit_or t (c * 2 ^ 8)) d)
      (bit_or_disjoint 24 a (b * 2 ^ 16) (omega arith) ∙ as_high_24)
    ∙ ap (λ (t : ℕ). bit_or t d)
        (bit_or_disjoint 16 (a * 2 ^ 8 + b) (c * 2 ^ 8) (omega arith) ∙ as_high_8)
    ∙ bit_or_disjoint 8 (a * 2 ^ 16 + b * 2 ^ 8 + c) d (omega arith)
    ∙ omega arith
  where
    as_high_24 : a * 2 ^ 24 + b * 2 ^ 16 ≡ (a * 2 ^ 8 + b) * 2 ^ 16
    as_high_24 = omega arith

    as_high_8 : (a * 2 ^ 8 + b) * 2 ^ 16 + c * 2 ^ 8 ≡ (a * 2 ^ 16 + b * 2 ^ 8 + c) * 2 ^ 8
    as_high_8 = omega arith

abbrev four : ℕ → ℕ → ℕ → ℕ → ℕ
four a b c d = bit_or (bit_or (bit_or a b) c) d

-- Four bytes in network order are read as the number that they stand for.
read_word-four :
    (a b c d : ℕ) (rest : List ℕ)
    → a < 256
    → b < 256
    → c < 256
    → d < 256
    → read_word (a ∷ b ∷ c ∷ d ∷ rest) 0 ≡ a * 2 ^ 24 + b * 2 ^ 16 + c * 2 ^ 8 + d
unfolding read_word
read_word-four a b c d rest ha hb hc hd =
    ap (λ (x : ℕ). four x (shift_left b 16) (shift_left c 8) (shift_left d 0)) a_fits
    ∙ ap (λ (x : ℕ). four (a * 2 ^ 24) x (shift_left c 8) (shift_left d 0)) b_fits
    ∙ ap (λ (x : ℕ). four (a * 2 ^ 24) (b * 2 ^ 16) x (shift_left d 0)) c_fits
    ∙ ap (λ (x : ℕ). four (a * 2 ^ 24) (b * 2 ^ 16) (c * 2 ^ 8) x) d_fits
    ∙ or_bytes a b c d ha hb hc hd
  where
    a_fits : shift_left a 24 ≡ a * 2 ^ 24
    a_fits = omega arith

    b_fits : shift_left b 16 ≡ b * 2 ^ 16
    b_fits = omega arith

    c_fits : shift_left c 8 ≡ c * 2 ^ 8
    c_fits = omega arith

    d_fits : shift_left d 0 ≡ d
    d_fits = omega arith

read_word-be32 : (n : ℕ) (rest : List ℕ) → n < 2 ^ 32 → read_word (be32 n ++ rest) 0 ≡ n
read_word-be32 n rest h =
    read_word-four (n / 2 ^ 24 % 256) (n / 2 ^ 16 % 256) (n / 2 ^ 8 % 256) (n % 256) rest
      (omega arith) (omega arith) (omega arith) (omega arith)
    ∙ omega arith

-- The second of two words.
read_word_second : (n : ℕ) (bytes : List ℕ) → read_word (be32 n ++ bytes) 4 ≡ read_word bytes 0
unfolding read_word
read_word_second n bytes = refl

pub read_int-be32 : (n : ℕ) (rest : List ℕ) → n < 2 ^ 31 → read_int (be32 n ++ rest) 0 ≡ ℤ.pos n
unfolding read_int
read_int-be32 n rest h = ap to_int32 (read_word-be32 n rest (omega arith)) ∙ ground arith

pub read_int_second :
    (m n : ℕ) (rest : List ℕ) → n < 2 ^ 31 → read_int (be32 m ++ (be32 n ++ rest)) 4 ≡ ℤ.pos n
unfolding read_int
read_int_second m n rest h =
    ap to_int32 (read_word_second m (be32 n ++ rest)) ∙ unfold read_int in read_int-be32 n rest h

-- `readInt` reads every 32-bit number in network order: its bits are the number's.
pub read_int-be32_bits :
    (n : ℕ) (rest : List ℕ) → n < 2 ^ 32 → read_int (be32 n ++ rest) 0 ≡ to_int32 n
unfolding read_int
read_int-be32_bits n rest h = ap to_int32 (read_word-be32 n rest h)

-- `readLong` of eight bytes, the two halves of a number in network order, returns the bits of the
-- halves laid over one another as a signed number of 32 bits: the high half is shifted by 32, which
-- is by 0, and not in front of the low half.
pub read_long-be32 :
    (hi lo : ℕ) (rest : List ℕ)
    → hi < 2 ^ 32
    → lo < 2 ^ 32
    → read_long (be32 hi ++ (be32 lo ++ rest)) 0 ≡ to_int32 (bit_or hi lo)
unfolding read_long
read_long-be32 hi lo rest h l =
    ap₂ (λ (x y : ℕ). to_int32 (bit_or x y)) head
      (read_word_second hi (be32 lo ++ rest) ∙ read_word-be32 lo rest l)
  where
    head : shift_left (read_word (be32 hi ++ (be32 lo ++ rest)) 0) 32 ≡ hi
    head = ap (λ (x : ℕ). shift_left x 32) (read_word-be32 hi (be32 lo ++ rest) h) ∙ omega arith

-- The slice between two positions.
pub slice-append :
    (before inside after : List ℕ)
    → slice
        (before ++ (inside ++ after))
        (ℤ.pos (length before))
        (ℤ.pos (length before + length inside))
      ≡ inside
unfolding slice
slice-append before inside after =
    ap₂ (λ (n : ℕ) (s : ℕ). take n (drop s whole)) size start
    ∙ ap (take (length inside)) (drop-append before (inside ++ after))
    ∙ take-append inside after
  where
    whole : List ℕ
    whole = before ++ (inside ++ after)

    start : min (length before) (length whole) ≡ length before
    start = omega lengths

    size :
        min (length before + length inside) (length whole) - min (length before) (length whole)
        ≡ length inside
    size = omega lengths
