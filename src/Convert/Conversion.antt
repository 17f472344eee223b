-- ===== src/Convert/Conversion.antt =====
-- What one message type promises of its `verify`, `fromObject` and `toObject` to those that hold it in a
-- field, and how a Long or a string keeps the same promises.
use timemachine.Base.{
  ℕ, arith, ◌≡◌, ◌≢◌, refl, ap, subst, ◌∙◌, [], Bool, true, false, Option, none, some, Bool-cases,
  inl, inr, if◌then◌else◌,
}
use timemachine.Protobuf.Outcome.{Text, Result, ok, throw, type_error}
use timemachine.Protobuf.Runtime.{IsLong}
use timemachine.Protobuf.Optional.{InOption}
use timemachine.JsValue.{Value, undefined, null, is_nil, is_object_type, is_long}
use timemachine.Convert.{
  Longs, LongsAs, as_long, as_number, as_string, Options, Given, plain, first_error, verify_object,
  check_long, check_string, within, to_long, to_string, to_message, show_long,
}
use timemachine.Convert.Rows.{with_default}

pub record Conversion (M : Type 0) : Type 1 where
  pub IsValid : M → Type 0
  pub verify : Value → Result (Option Text)
  pub from_object : Given M → Result M
  pub to_object : M → Options → Value
  -- The message with its defaults as own properties, if they are wanted.
  pub filled : Bool → M → M
  pub to_object-IsObject :
      (m : M) (o : Options)
      → (is_object_type (to_object m o) ≡ true) × (is_nil (to_object m o) ≡ false)
  pub from_object-to_object :
      (m : M) (o : Options)
      → IsValid m
      → o.longs ≢ as_number
      → from_object (plain (to_object m o)) ≡ ok (filled o.defaults m)
  pub verify-to_object :
      (m : M) (o : Options) → o.longs ≡ as_long → verify (to_object m o) ≡ ok none
  pub verify-IsObject :
      (v : Value) → verify v ≡ ok none → (is_object_type v ≡ true) × (is_nil v ≡ false)
  pub verify-from_object :
      (v : Value) → verify v ≡ ok none → (m : M) × (from_object (plain v) ≡ ok m)

pub first_error-none :
    (x y : Result (Option Text)) → first_error x y ≡ ok none → (x ≡ ok none) × (y ≡ ok none)
first_error-none (ok none) y h = (refl, h)
first_error-none (ok (some e)) y h = cc
first_error-none (Result.throw e) y h = cc
first_error-none Result.stuck y h = cc

pub verify_object-none :
    (v : Value) (x : Result (Option Text))
    → verify_object v x ≡ ok none
    → (is_object_type v ≡ true) × (is_nil v ≡ false) × (x ≡ ok none)
verify_object-none undefined x h = cc
verify_object-none null x h = cc
verify_object-none (Value.boolean b) x h = cc
verify_object-none (Value.integer z) x h = cc
verify_object-none (Value.double b) x h = cc
verify_object-none (Value.string t) x h = cc
verify_object-none (Value.long b) x h = (refl, refl, h)
verify_object-none (Value.buffer b) x h = (refl, refl, h)
verify_object-none (Value.array vs) x h = (refl, refl, h)
verify_object-none (Value.object ps) x h = (refl, refl, h)

within-none : (prefix : Text) (x : Result (Option Text)) → within prefix x ≡ ok none → x ≡ ok none
within-none prefix (ok none) h = refl
within-none prefix (ok (some e)) h = cc
within-none prefix (Result.throw e) h = cc
within-none prefix Result.stuck h = cc

pub InOption-some :
    {A : Type 0} (InRange : A → Type 0) (o : Option A) (a : A)
    → InOption InRange o
    → o ≡ some a
    → InRange a
InOption-some InRange none a valid h = cc
InOption-some InRange (some b) a valid h = subst InRange (cc h) valid

pub with_default-InOption :
    {A : Type 0} (InRange : A → Type 0) (d : Bool) (a : A) (o : Option A)
    → InRange a
    → InOption InRange o
    → InOption InRange (with_default d a o)
with_default-InOption InRange true a none p q = p
with_default-InOption InRange true a (some b) p q = q
with_default-InOption InRange false a o p q = q

module _ (L : Longs) where
  -- A Long that is shown, but not as a number, is read back.
  pub to_long-show_long :
      (o : Options) (b : ℕ)
      → o.longs ≢ as_number
      → IsLong b
      → (is_nil (show_long L o b) ≡ false) × (to_long L (show_long L o b) ≡ ok b)
  to_long-show_long o b not_number long = by_cases o.longs not_number
    where
      by_cases :
          (as' : LongsAs)
          → as' ≢ as_number
          → let v = show_long L (record o { longs = as' }) b in
            (is_nil v ≡ false) × (to_long L v ≡ ok b)
      by_cases as_long h = (refl, rw (L.from_value-long b long) refl)
      by_cases as_string h = (refl, rw (L.from_value-to_text b long) refl)
      by_cases as_number h = absurd (h refl)

  pub check_long-show_long :
      (error : Text) (o : Options) (b : ℕ)
      → o.longs ≡ as_long
      → check_long error (show_long L o b) ≡ ok none
  check_long-show_long error o b h = rw h refl

  -- What passes its check is converted.
  pub to_long-checked :
      (error : Text) (v : Value) → check_long error v ≡ ok none → (b : ℕ) × (to_long L v ≡ ok b)
  to_long-checked error (Value.integer z) h = let (b, e) = L.from_value-integer z in (b, rw e refl)
  to_long-checked error (Value.long w) h =
      let (b, e) = L.from_value-IsLong (Value.long w) refl in (b, rw e refl)
  to_long-checked error (Value.object ps) h = elim (Bool-cases (is_long (Value.object ps))) [
    | inl e ↦ let (b, k) = L.from_value-IsLong (Value.object ps) e in (b, rw k refl)
    | inr e ↦ absurd (ground (arith, e, h))
  ]
  to_long-checked error undefined h = cc
  to_long-checked error null h = cc
  to_long-checked error (Value.boolean b) h = cc
  to_long-checked error (Value.double b) h = cc
  to_long-checked error (Value.string t) h = cc
  to_long-checked error (Value.buffer b) h = cc
  to_long-checked error (Value.array vs) h = cc

  pub to_string-checked :
      (error : Text) (v : Value)
      → check_string error v ≡ ok none
      → (t : Text) × (to_string L v ≡ ok t)
  to_string-checked error (Value.string t) h = (t, refl)
  to_string-checked error undefined h = cc
  to_string-checked error null h = cc
  to_string-checked error (Value.boolean b) h = cc
  to_string-checked error (Value.integer z) h = cc
  to_string-checked error (Value.double b) h = cc
  to_string-checked error (Value.long b) h = cc
  to_string-checked error (Value.buffer b) h = cc
  to_string-checked error (Value.array vs) h = cc
  to_string-checked error (Value.object ps) h = cc

-- A sub-message that passes `verify` is converted, and so is one that was shown.
module _ {M : Type 0} (C : Conversion M) where
  pub to_message-checked :
      (prefix : Text) (v : Value)
      → within prefix (C.verify v) ≡ ok none
      → (m : M) × (to_message C.from_object v ≡ ok m)
  to_message-checked prefix v h =
      let passes = within-none prefix (C.verify v) h in
      let (m, e) = C.verify-from_object v passes in
      (
        m,
        ap (λ b. if b then C.from_object (plain v) else throw (type_error []))
              (C.verify-IsObject v passes).0
            ∙ e,
      )

  pub to_message-to_object :
      (m : M) (o : Options)
      → C.IsValid m
      → o.longs ≢ as_number
      → (is_nil (C.to_object m o) ≡ false)
        × (to_message C.from_object (C.to_object m o) ≡ ok (C.filled o.defaults m))
  to_message-to_object m o valid not_number =
      let (ob, there) = C.to_object-IsObject m o in
      (
        there,
        ap (λ b. if b then C.from_object (plain (C.to_object m o)) else throw (type_error [])) ob
            ∙ C.from_object-to_object m o valid not_number,
      )

  pub within-to_object :
      (prefix : Text) (m : M) (o : Options)
      → o.longs ≡ as_long
      → within prefix (C.verify (C.to_object m o)) ≡ ok none
  within-to_object prefix m o h = ap (within prefix) (C.verify-to_object m o h)

pub nil_default : (d : Bool) → is_nil (if d then null else undefined) ≡ true
nil_default true = refl
nil_default false = refl
