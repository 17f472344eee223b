-- ===== src/Protobuf/Outcome.antt =====
-- What a call in the client can do: return, throw, or (in the model alone) run out of fuel.
use timemachine.Base.{ℕ, ℤ, ◌≡◌, ◌≢◌, ◌⊎◌, inl, inr, refl, ap, ◌∙◌, Option, none, some, List}

-- A JavaScript string is a sequence of UTF-16 code units.
abbrev pub Text : Type 0
Text = List ℕ

-- `read_error` is whatever the reader throws: a RangeError past the end, or an Error on a varint
-- or a wire type that is not valid. `stack_overflow` is the RangeError of calls nested too deeply.
-- `invalid_resp` is the Error of decodeRespOrError in index.ts. `conversion_error` is what a conversion of a value
-- throws.
pub data Failure : Type 0 where
  read_error stack_overflow : Failure
  type_error : Text → Failure
  invalid_resp : ℤ → Failure
  conversion_error : Failure

-- `stuck` is no outcome of the program: a loop of the model ran out of fuel.
pub data Result {ℓ} (A : Type ℓ) : Type ℓ where
  ok : A → Result A
  throw : Failure → Result A
  stuck : Result A

infixl 5 ◌>>=◌
abbrev pub ◌>>=◌ {ℓ κ} : {A : Type ℓ} {B : Type κ} → Result A → (A → Result B) → Result B
ok a >>= f = f a
throw e >>= f = throw e
stuck >>= f = stuck

-- A call of the reader, which returns or throws.
abbrev pub attempt {ℓ} : {A : Type ℓ} → Option A → Result A
attempt none = throw read_error
attempt (some a) = ok a

module _ {ℓ κ} {A : Type ℓ} {B : Type κ} where
  pub >>=-eq-ok :
      (x : Result A) (f : A → Result B) {b : B}
      → (x >>= f) ≡ ok b
      → (a : A) × (x ≡ ok a) × (f a ≡ ok b)
  >>=-eq-ok (ok a) f h = (a, refl, h)
  >>=-eq-ok (throw e) f h = cc
  >>=-eq-ok stuck f h = cc

  -- A step that returns, and what follows it.
  pub >>=-step :
      {x : Result A} (f : A → Result B) {y : Result B} (a : A) → x ≡ ok a → f a ≡ y → (x >>= f) ≡ y
  >>=-step f a h k = ap (λ z. z >>= f) h ∙ k

  pub >>=-ne-stuck_ok : (x : Result A) (g : A → B) → x ≢ stuck → (x >>= λ a. ok (g a)) ≢ stuck
  >>=-ne-stuck_ok (ok a) g h = λ p. cc
  >>=-ne-stuck_ok (throw e) g h = λ p. cc
  >>=-ne-stuck_ok stuck g h = absurd (h refl)

  pub >>=-throw :
      {x : Result A} (f : A → Result B) {e : Failure} → x ≡ throw e → (x >>= f) ≡ throw e
  >>=-throw f h = ap (λ z. z >>= f) h

  pub throw-ne-stuck :
      (x : Result A) {e : Failure} (f : A → Result B) → x ≡ throw e → (x >>= f) ≢ stuck
  throw-ne-stuck (ok a) f h = cc
  throw-ne-stuck (throw e) f h = λ p. cc
  throw-ne-stuck stuck f h = cc

  pub >>=-ne-stuck :
      (x : Result A) (f : A → Result B) → x ≢ stuck → ((a : A) → f a ≢ stuck) → (x >>= f) ≢ stuck
  >>=-ne-stuck (ok a) f h k = k a
  >>=-ne-stuck (throw e) f h k = λ p. cc
  >>=-ne-stuck stuck f h k = absurd (h refl)

pub attempt-ne-stuck {ℓ} : {A : Type ℓ} (o : Option A) → attempt o ≢ stuck
attempt-ne-stuck none = λ e. cc
attempt-ne-stuck (some a) = λ e. cc

pub Result-cases {ℓ} :
    {A : Type ℓ} (x : Result A)
    → x ≢ stuck
    → ((a : A) × (x ≡ ok a)) ⊎ ((e : Failure) × (x ≡ throw e))
Result-cases (ok a) h = inl (a, refl)
Result-cases (throw e) h = inr (e, refl)
Result-cases stuck h = absurd (h refl)

pub attempt-eq-ok {ℓ} : {A : Type ℓ} (o : Option A) {a : A} → attempt o ≡ ok a → o ≡ some a
attempt-eq-ok none h = cc
attempt-eq-ok (some b) h = cc

pub ok-injective {ℓ} : {A : Type ℓ} {a b : A} → ok a ≡ ok b → a ≡ b
ok-injective h = cc
