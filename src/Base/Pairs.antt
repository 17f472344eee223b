-- ===== src/Base/Pairs.antt =====
-- Conditions on the pairs of a list, and on its parts, as types that compute.
use mathlib.Core.Path.{◌≡◌, refl, sym, ap, ap₂, subst, ◌∙◌}
use mathlib.Core.Logic.{ite}
use mathlib.Core.Bool.{Bool, true, false, false≢true}
use mathlib.Core.List.{List, [], ◌∷◌, ◌++◌, reverse, reverse-cons, filter, map}
use native.Mathlib.Omega.{arith}
use timemachine.Base.Lists.{length, length-append, All, All-snoc}

-- The relation holds between each element and every later one.
abbrev pub Pairwise {ℓ κ} : {A : Type ℓ} → (A → A → Type κ) → List A → Type κ
Pairwise R [] = Unit
Pairwise R (x ∷ xs) = All (R x) xs × Pairwise R xs

abbrev pub decide_true : (b : Bool) → Dec (b ≡ true)
decide_true true = yes refl
decide_true false = no false≢true

-- The library's `filter`, for a Boolean test.
abbrev pub select {ℓ} : {A : Type ℓ} → (A → Bool) → List A → List A
select test xs = filter {p = λ x. test x ≡ true} (λ x. decide_true (test x)) xs

module _ {ℓ} {A : Type ℓ} where
  pub length-reverse : (xs : List A) → length (reverse xs) ≡ length xs
  length-reverse [] = refl
  length-reverse (x ∷ xs) =
      ap length (reverse-cons x xs)
      ∙ length-append (reverse xs) (x ∷ [])
      ∙ omega (arith, length-reverse xs)

module _ {ℓ κ} {A : Type ℓ} where
  pub All-imp {μ} :
      (P : A → Type κ) (Q : A → Type μ)
      → ((x : A) → P x → Q x)
      → (xs : List A) → All P xs
      → All Q xs
  All-imp P Q f [] h = _
  All-imp P Q f (x ∷ xs) (h, hs) = (f x h, All-imp P Q f xs hs)

  pub All-both {μ ν} :
      (P : A → Type κ) (Q : A → Type μ) (S : A → Type ν)
      → ((x : A) → P x → Q x → S x)
      → (xs : List A) → All P xs
      → All Q xs
      → All S xs
  All-both P Q S f [] h k = _
  All-both P Q S f (x ∷ xs) (h, hs) (k, ks) = (f x h k, All-both P Q S f xs hs ks)

  pub All-reverse : (P : A → Type κ) (xs : List A) → All P xs → All P (reverse xs)
  All-reverse P [] h = _
  All-reverse P (x ∷ xs) (h, hs) =
      subst (All P) (sym (reverse-cons x xs)) (All-snoc P (reverse xs) x (All-reverse P xs hs) h)

  pub Pairwise-snoc :
      (R : A → A → Type κ) (xs : List A) (x : A)
      → Pairwise R xs
      → All (λ y. R y x) xs
      → Pairwise R (xs ++ (x ∷ []))
  Pairwise-snoc R [] x h k = (_, _)
  Pairwise-snoc R (y ∷ xs) x (h, hs) (k, ks) = (All-snoc (R y) xs x h k, Pairwise-snoc R xs x hs ks)

  pub Pairwise-reverse :
      (R : A → A → Type κ) (xs : List A) → Pairwise R xs → Pairwise (λ a b. R b a) (reverse xs)
  Pairwise-reverse R [] h = _
  Pairwise-reverse R (x ∷ xs) (h, hs) = subst (Pairwise (λ a b. R b a)) (sym (reverse-cons x xs)) (
      Pairwise-snoc (λ a b. R b a) (reverse xs) x (Pairwise-reverse R xs hs)
        (All-reverse (R x) xs h))

pub select-ext {ℓ} :
    {A : Type ℓ} (f g : A → Bool) (xs : List A)
    → All (λ x. f x ≡ g x) xs
    → select f xs ≡ select g xs
select-ext f g [] h = refl
select-ext f g (x ∷ xs) (h, hs) =
    ap₂ (λ b t. ite (decide_true b) (x ∷ t) t) h (select-ext f g xs hs)

pub select-none {ℓ} :
    {A : Type ℓ} (f : A → Bool) (xs : List A) → All (λ x. f x ≡ false) xs → select f xs ≡ []
select-none f [] h = refl
select-none f (x ∷ xs) (h, hs) =
    ap (λ b. ite (decide_true b) (x ∷ select f xs) (select f xs)) h ∙ select-none f xs hs

-- What does not pass the test in front of a list is skipped.
pub select-skip {ℓ} :
    {A : Type ℓ} (f : A → Bool) (xs ys : List A)
    → All (λ x. f x ≡ false) xs
    → select f (xs ++ ys) ≡ select f ys
select-skip f [] ys h = refl
select-skip f (x ∷ xs) ys (h, hs) =
    ap (λ b. ite (decide_true b) (x ∷ select f (xs ++ ys)) (select f (xs ++ ys))) h
    ∙ select-skip f xs ys hs

module _ {ℓ κ} {A : Type ℓ} where
  pub All-append_parts : (P : A → Type κ) (xs ys : List A) → All P (xs ++ ys) → All P xs × All P ys
  All-append_parts P [] ys h = (_, h)
  All-append_parts P (x ∷ xs) ys (h, hs) =
      let (front, back) = All-append_parts P xs ys hs in ((h, front), back)

  pub All-append : (P : A → Type κ) (xs ys : List A) → All P xs → All P ys → All P (xs ++ ys)
  All-append P [] ys h k = k
  All-append P (x ∷ xs) ys (h, hs) k = (h, All-append P xs ys hs k)

  pub Pairwise-append_right :
      (R : A → A → Type κ) (xs ys : List A) → Pairwise R (xs ++ ys) → Pairwise R ys
  Pairwise-append_right R [] ys h = h
  Pairwise-append_right R (x ∷ xs) ys (h, hs) = Pairwise-append_right R xs ys hs

  -- What stands in front of an element is related to it.
  pub Pairwise-middle :
      (R : A → A → Type κ) (xs ys : List A) (y : A)
      → Pairwise R (xs ++ (y ∷ ys))
      → All (λ x. R x y) xs
  Pairwise-middle R [] ys y h = _
  Pairwise-middle R (x ∷ xs) ys y (h, hs) =
      ((All-append_parts (R x) xs (y ∷ ys) h).1.0, Pairwise-middle R xs ys y hs)

  pub Pairwise-both {μ ν} :
      (P : A → Type μ) (R : A → A → Type κ) (S : A → A → Type ν)
      → ((x y : A) → P x → P y → R x y → S x y)
      → (xs : List A) → All P xs
      → Pairwise R xs
      → Pairwise S xs
  Pairwise-both P R S f [] h k = _
  Pairwise-both P R S f (x ∷ xs) (h, hs) (k, ks) =
      (All-both P (R x) (S x) (λ y p r. f x y h p r) xs hs k, Pairwise-both P R S f xs hs ks)

pub All-select {ℓ κ} :
    {A : Type ℓ} (P : A → Type κ) (f : A → Bool) (xs : List A) → All P xs → All P (select f xs)
All-select P f [] h = _
All-select P f (x ∷ xs) (h, hs) = keep (f x) (All-select P f xs hs)
  where
    keep :
        (b : Bool)
        → All P (select f xs)
        → All P (ite (decide_true b) (x ∷ select f xs) (select f xs))
    keep true rest = (h, rest)
    keep false rest = rest

pub All-map {ℓ κ μ} :
    {A : Type ℓ} {B : Type κ} (P : A → Type μ) (Q : B → Type μ) (f : A → B)
    → ((x : A) → P x → Q (f x))
    → (xs : List A) → All P xs
    → All Q (map f xs)
All-map P Q f imp [] h = _
All-map P Q f imp (x ∷ xs) (h, hs) = (imp x h, All-map P Q f imp xs hs)

-- All values of a function that are what they are to be.
pub All-every {ℓ κ μ} :
    {A : Type ℓ} {B : Type κ} (P : B → Type μ) (f : A → B)
    → ((x : A) → P (f x))
    → (xs : List A) → All P (map f xs)
All-every P f every [] = _
All-every P f every (x ∷ xs) = (every x, All-every P f every xs)

pub length-map {ℓ κ} :
    {A : Type ℓ} {B : Type κ} (f : A → B) (xs : List A) → length (map f xs) ≡ length xs
length-map f [] = refl
length-map f (x ∷ xs) = omega (arith, length-map f xs)
