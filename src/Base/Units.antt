-- ===== src/Base/Units.antt =====
-- The code units of a text that stands in the program, all of it ASCII.
use Prim.Native.Nat.{ℕ}
use Prim.Native.Char.{code}
use Prim.Native.String.{String, [], ◌∷◌}
use mathlib.Core.List.{List, [] as []ᴸ, ◌∷◌ as ◌∷ᴸ◌}

abbrev pub units : String → List ℕ
units [] = []ᴸ
units (c ∷ s) = code c ∷ᴸ units s
