-- ===== src/Sample/Longs.antt =====
-- Longs that keep what is relied on of the package `long`: a number is shown as a text of one unit, in
-- place of its digits.
use timemachine.Base.{
  ℕ, ◌+◌, ◌-◌, ◌*◌, ◌%◌, ◌^◌, ◌≡◌, refl, ℤ, [], ◌∷◌, true, Option, none, some, units,
}
use timemachine.JsValue.{Value, property_of, is_long}
use timemachine.Convert.{Longs}

-- The low bits of a number in two's complement.
abbrev pub bits : ℕ → ℤ → ℕ
bits w (ℤ.pos n) = n % 2 ^ w
bits w (ℤ.negsuc n) = 2 ^ w - 1 - n % 2 ^ w

-- `value | 0`
abbrev pub word : Value → ℕ
word (Value.integer z) = bits 32 z
word _ = 0

abbrev pub from_value : Value → Option ℕ
from_value (Value.integer z) = some (bits 64 z)
from_value (Value.long b) = some b
from_value (Value.string (b ∷ [])) = some b
from_value (Value.object ps) =
    some (word (property_of (units "low") ps) + 2 ^ 32 * word (property_of (units "high") ps))
from_value _ = none

pub from_value-IsLong : (v : Value) → is_long v ≡ true → (b : ℕ) × (from_value v ≡ some b)
from_value-IsLong (Value.long b) h = (b, refl)
from_value-IsLong (Value.object ps) h = (_, refl)
from_value-IsLong (Value.string (b ∷ [])) h = cc
from_value-IsLong (Value.string []) h = cc
from_value-IsLong (Value.string (a ∷ b ∷ t)) h = cc
from_value-IsLong Value.undefined h = cc
from_value-IsLong Value.null h = cc
from_value-IsLong (Value.boolean b) h = cc
from_value-IsLong (Value.integer z) h = cc
from_value-IsLong (Value.double b) h = cc
from_value-IsLong (Value.buffer b) h = cc
from_value-IsLong (Value.array vs) h = cc

abbrev pub longs : Longs
longs = record {
  from_value = from_value;
  to_text = λ b. b ∷ [];
  to_number = λ b. Value.double b;
  text_of = λ v. none;
  from_value-long = λ b long. refl;
  from_value-to_text = λ b long. refl;
  from_value-integer = λ z. (bits 64 z, refl);
  from_value-IsLong = from_value-IsLong;
}
