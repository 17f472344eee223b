-- ===== src/Convert/Laws.antt =====
-- What the parts of Convert.antt do on the fields of an object.
use timemachine.Base.{◌≡◌, refl, [], ◌∷◌, arith, Bool-cases, inl, inr, true, false}
use timemachine.Protobuf.Outcome.{Text}
use timemachine.JsObject.{text_eq}
use timemachine.JsValue.{
  Value, Properties, no_properties, property, property_of, has_own, set_property,
}

pub text_eq_to_eq : (s t : Text) → text_eq s t ≡ true → s ≡ t
text_eq_to_eq [] [] h = refl
text_eq_to_eq [] (u ∷ us) h = cc
text_eq_to_eq (t ∷ ts) [] h = cc
text_eq_to_eq (t ∷ ts) (u ∷ us) h = ground (arith, text_eq_to_eq ts us)

text_eq_refl : (t : Text) → text_eq t t ≡ true
text_eq_refl [] = refl
text_eq_refl (u ∷ us) = ground (arith, text_eq_refl us)

-- A property that is set is read, and no other changes.
pub property_of-set_property :
    (key : Text) (v : Value) (ps : Properties) → property_of key (set_property key v ps) ≡ v
unfolding set_property
property_of-set_property key v no_properties = rw (text_eq_refl key) refl
property_of-set_property key v (property k w rest) =
    ground (arith, text_eq_refl key, property_of-set_property key v rest)

pub property_of-set_other :
    (key other : Text) (v : Value) (ps : Properties)
    → text_eq other key ≡ false
    → property_of key (set_property other v ps) ≡ property_of key ps
unfolding set_property
property_of-set_other key other v no_properties h = rw h refl
property_of-set_other key other v (property k w rest) h = elim (Bool-cases (text_eq k other)) [
  | inl e ↦ ground (arith, e, h, text_eq_to_eq k other e)
  | inr e ↦ ground (arith, e, property_of-set_other key other v rest h)
]

pub has_own-set_other :
    (key other : Text) (v : Value) (ps : Properties)
    → text_eq other key ≡ false
    → has_own key (set_property other v ps) ≡ has_own key ps
unfolding set_property
has_own-set_other key other v no_properties h = rw h refl
has_own-set_other key other v (property k w rest) h = elim (Bool-cases (text_eq k other)) [
  | inl e ↦ ground (arith, e, h, text_eq_to_eq k other e)
  | inr e ↦ ground (arith, e, has_own-set_other key other v rest h)
]
