-- ===== src/JsObject.antt =====
-- JavaScript objects that serve as maps from strings, such as `message.inputs` in
-- tsclient/recstore-ts/src/compiled.js: their own properties, in the order of `Object.keys`.
-- That is the order in which the keys were first assigned, but for array indices, which come first;
-- and an assignment to `__proto__` makes no own property. `IsPlainKey` leaves such keys out.
use timemachine.Base.{
  ◌≡◌, refl, List, [], ◌∷◌, ◌++◌, Bool, true, false, ◌&&◌, ◌||◌, Option, none, some, ◌==◌, leb,
  if◌then◌else◌, arith,
}
use timemachine.Protobuf.Outcome.{Text}

abbrev pub text_eq : Text → Text → Bool
text_eq [] [] = true
text_eq [] (u ∷ us) = false
text_eq (t ∷ ts) [] = false
text_eq (t ∷ ts) (u ∷ us) = t == u && text_eq ts us

-- `__proto__`
abbrev proto_key : Text
proto_key = 95 ∷ 95 ∷ 112 ∷ 114 ∷ 111 ∷ 116 ∷ 111 ∷ 95 ∷ 95 ∷ []

abbrev starts_with_digit : Text → Bool
starts_with_digit [] = false
starts_with_digit (u ∷ us) = leb b'0' u && leb u b'9'

abbrev pub IsPlainKey : Text → Type 0
IsPlainKey key = (starts_with_digit key || text_eq key proto_key) ≡ false

module _ {A : Type 0} where
  -- `key in object`, for own properties.
  abbrev pub has_key : Text → List (Text × A) → Bool
  has_key key [] = false
  has_key key ((k, v) ∷ object) = text_eq k key || has_key key object

  -- `object[key]`, where `none` is `undefined`.
  abbrev pub get_key : Text → List (Text × A) → Option A
  get_key key [] = none
  get_key key ((k, v) ∷ object) = if text_eq k key then some v else get_key key object

  -- `object[key] = value`
  unfoldable pub set_key : Text → A → List (Text × A) → List (Text × A)
  set_key key value [] = (key, value) ∷ []
  set_key key value ((k, v) ∷ object) =
      if text_eq k key then (k, value) ∷ object else (k, v) ∷ set_key key value object

  -- No key of the second list is one before it, or one of the first list.
  abbrev pub DistinctFrom : List (Text × A) → List (Text × A) → Type 0
  DistinctFrom done [] = Unit {0}
  DistinctFrom done ((k, v) ∷ object) =
      (has_key k done ≡ false) × DistinctFrom (done ++ ((k, v) ∷ [])) object

  -- A new key goes behind the others.
  pub set_key_new :
      (key : Text) (value : A) (object : List (Text × A))
      → has_key key object ≡ false
      → set_key key value object ≡ object ++ ((key, value) ∷ [])
  unfolding set_key
  set_key_new key value [] h = refl
  set_key_new key value ((k, v) ∷ object) h = ground (arith, set_key_new key value object)
