-- ===== src/Protobuf/Loop.antt =====
-- The loop of every `decode` in compiled.js,
--   while (reader.pos < end) { var tag = reader.uint32(); switch (tag >>> 3) { … } }
-- over the switch of the message, which is `on_field` here.
use timemachine.Base.{
  ℕ, zero, suc, ◌-◌, ◌≤◌, ◌<◌, ◌≡◌, ◌≢◌, refl, Bool, true, false, Option, none, some, length, ltb,
  Bool-cases, ltb→lt, ltb→le, lt→ltb, le→ltb, inl, inr, arith, ap, ◌∙◌, if◌then◌else◌,
}
use mathlib.Core.Path.{subst₂}
use timemachine.Protobuf.Outcome.{
  Result, Failure, ok, throw, stuck, ◌>>=◌, attempt, attempt-eq-ok, >>=-eq-ok,
}
use timemachine.Protobuf.Runtime.{Runtime, Scalar, Reader}

-- A call that leaves the buffer alone, does not move the reader back, and ends.
pub data Ahead {A : Type 0} (r : Reader) : Result (A × Reader) → Type 0 where
  moved : {a : A} {r' : Reader} → r'.buf ≡ r.buf → r.pos ≤ r'.pos → Ahead r (ok (a, r'))
  thrown : {e : Failure} → Ahead r (throw e)

pub Ahead-ne-stuck : {A : Type 0} {r : Reader} {x : Result (A × Reader)} → Ahead r x → x ≢ stuck
Ahead-ne-stuck (moved b p) = λ e. cc
Ahead-ne-stuck thrown = λ e. cc

pub Ahead-ok :
    {A : Type 0} {r : Reader} {x : Result (A × Reader)} (a : A) (r' : Reader)
    → Ahead r x
    → x ≡ ok (a, r')
    → (r'.buf ≡ r.buf) × (r.pos ≤ r'.pos)
Ahead-ok a r' (moved b p) e = (ground arith, ground arith)
Ahead-ok a r' thrown e = cc

module _ {A : Type 0} where
  pub Ahead-weaken :
      {r r' : Reader} {x : Result (A × Reader)}
      → r'.buf ≡ r.buf
      → r.pos ≤ r'.pos
      → Ahead r' x
      → Ahead r x
  Ahead-weaken b p (moved b' p') = moved (cc) (omega arith)
  Ahead-weaken b p thrown = thrown

  pub Ahead-bind_eq :
      {B : Type 0} {r : Reader} (x : Result (B × Reader)) (f : B × Reader → Result (A × Reader))
      → Ahead r x
      → ((b : B) (r' : Reader) → x ≡ ok (b, r') → Ahead r' (f (b, r')))
      → Ahead r (x >>= f)
  Ahead-bind_eq _ f (moved {a = b} {r' = r'} same le) k = Ahead-weaken same le (k b r' refl)
  Ahead-bind_eq _ f thrown k = thrown

  pub Ahead-bind :
      {B : Type 0} {r : Reader} (x : Result (B × Reader)) (f : B × Reader → Result (A × Reader))
      → Ahead r x
      → ((b : B) (r' : Reader) → Ahead r' (f (b, r')))
      → Ahead r (x >>= f)
  Ahead-bind x f h k = Ahead-bind_eq x f h λ b r' e. k b r'

  pub Ahead-if :
      {r : Reader} (b : Bool) {x y : Result (A × Reader)}
      → Ahead r x
      → Ahead r y
      → Ahead r (if b then x else y)
  Ahead-if true hx hy = hx
  Ahead-if false hx hy = hy

  Ahead-attempt :
      {r : Reader} (o : Option (A × Reader))
      → ((a : A) (r' : Reader) → o ≡ some (a, r') → (r'.buf ≡ r.buf) × (r.pos ≤ r'.pos))
      → Ahead r (attempt o)
  Ahead-attempt none h = thrown
  Ahead-attempt (some (a, r')) h = let (b, p) = h a r' refl in moved b p

  -- A call that returns the reader alone.
  pub Ahead-attempt_reader :
      {r : Reader} (o : Option Reader) (f : Reader → Result (A × Reader))
      → ((r' : Reader) → o ≡ some r' → (r'.buf ≡ r.buf) × (r.pos ≤ r'.pos))
      → ((r' : Reader) → Ahead r' (f r'))
      → Ahead r (attempt o >>= f)
  Ahead-attempt_reader none f h k = thrown
  Ahead-attempt_reader (some r') f h k = let (b, p) = h r' refl in Ahead-weaken b p (k r')

  -- The handler of a field gives a value that is stored in the message: the reader moves the same.
  pub Ahead-done : (r : Reader) (a : A) → Ahead r (ok (a, r))
  Ahead-done r a = moved refl (omega arith)

module _ (P : Runtime) where
  pub Ahead-read :
      {A : Type 0} {InRange : A → Type 0} (S : Scalar P.Writer P.buffers A InRange) (r : Reader)
      → Ahead r (attempt (S.read r))
  Ahead-read S r =
      Ahead-attempt (S.read r) λ a r' e. let (b, p, q) = S.read-forward r r' a e in (b, omega arith)

  module _ {M : Type 0} (on_field : M → ℕ → Reader → Result (M × Reader)) where
    -- `message` and `reader` are the loop's variables. Each round takes a byte, so there are at most
    -- as many as there are bytes left; `fuel` is one more.
    unfoldable pub read_fields : ℕ → ℕ → M → Reader → Result (M × Reader)
    read_fields zero end message reader = stuck
    read_fields (suc fuel) end message reader = elim (ltb reader.pos end) [
      | true ↦ do
        (tag, reader₁) ← attempt (P.uint32.read reader)
        (message', reader₂) ← on_field message tag reader₁
        read_fields fuel end message' reader₂
      | false ↦ ok (message, reader)
    ]

    read_fields-more :
        (fuel end : ℕ) (m : M) (r : Reader)
        → r.pos < end
        → read_fields (suc fuel) end m r ≡ (
            attempt (P.uint32.read r) >>= λ (tag, r₁).
            on_field m tag r₁ >>= λ (m₁, r₂). read_fields fuel end m₁ r₂)
    unfolding read_fields
    read_fields-more fuel end m r h = rw (lt→ltb r.pos end h, read_fields)

    read_fields-end :
        (fuel end : ℕ) (m : M) (r : Reader)
        → end ≤ r.pos
        → read_fields (suc fuel) end m r ≡ ok (m, r)
    unfolding read_fields
    read_fields-end fuel end m r h = rw (le→ltb r.pos end h, read_fields)

    -- The rounds of the loop as a relation: from a message and a reader to those at its end.
    pub data Fields (end : ℕ) : M → Reader → M → Reader → Type 0 where
      ended : {m : M} {r : Reader} → end ≤ r.pos → Fields end m r m r
      field :
          {m m₁ m' : M} {r r₂ r' : Reader} (tag : ℕ) (r₁ : Reader)
          → r.pos < end
          → P.uint32.read r ≡ some (tag, r₁)
          → on_field m tag r₁ ≡ ok (m₁, r₂)
          → Fields end m₁ r₂ m' r'
          → Fields end m r m' r'

    -- What the loop returns is reached by the relation.
    pub read_fields-Fields :
        (fuel end : ℕ) (m : M) (r : Reader) {m' : M} {r' : Reader}
        → read_fields fuel end m r ≡ ok (m', r')
        → Fields end m r m' r'
    read_fields-Fields zero end m r h = unfold read_fields in cc
    read_fields-Fields (suc fuel) end m r {m'} {r'} h = elim (Bool-cases (ltb r.pos end)) [
      | inl more ↦
          let e = rw (read_fields-more fuel end m r (ltb→lt _ _ more)) at h in
          let (p, read, e₁) = >>=-eq-ok (attempt (P.uint32.read r)) _ e in
          let (q, handled, e₂) = >>=-eq-ok (on_field m p.0 p.1) _ e₁ in
          field p.0 p.1 (ltb→lt _ _ more) (attempt-eq-ok _ read) handled
            (read_fields-Fields fuel end q.0 q.1 e₂)
      | inr done ↦
          let e = rw (read_fields-end fuel end m r (ltb→le _ _ done)) at h in
          subst₂ (λ m₀ r₀. Fields end m r m₀ r₀) (cc e) (cc e) (ended (ltb→le _ _ done))
    ]

    module _ (ahead : (m : M) (tag : ℕ) (r : Reader) → Ahead r (on_field m tag r)) where
      -- One round leaves fewer bytes.
      fewer :
          {m m₁ : M} {r r₁ r₂ : Reader} {tag : ℕ}
          → P.uint32.read r ≡ some (tag, r₁)
          → on_field m tag r₁ ≡ ok (m₁, r₂)
          → length r₂.buf - r₂.pos < length r.buf - r.pos
      fewer {m} {m₁} {r} {r₁} {r₂} {tag} h k =
          let (b, p, q) = P.uint32.read-forward r r₁ tag h in
          let (b', p') = Ahead-ok m₁ r₂ (ahead m tag r₁) k in
          let same : length r₂.buf ≡ length r.buf = ap length (b' ∙ b) in omega arith

      -- With fuel above the number of bytes left the loop computes the relation.
      pub Fields-read_fields :
          {end : ℕ} {m m' : M} {r r' : Reader}
          → Fields end m r m' r'
          → (fuel : ℕ) → length r.buf - r.pos < fuel
          → read_fields fuel end m r ≡ ok (m', r')
      Fields-read_fields (ended h) zero small = absurd (omega arith)
      Fields-read_fields (ended h) (suc fuel) small = read_fields-end fuel _ _ _ h
      Fields-read_fields (field tag r₁ lt h k more) zero small = absurd (omega arith)
      Fields-read_fields (field tag r₁ lt h k more) (suc fuel) small =
          read_fields-more fuel _ _ _ lt
          ∙ rw (h, k) (Fields-read_fields more fuel (omega (arith, fewer h k)))

      -- The fuel never runs out, and the reader only moves forward.
      pub read_fields-Ahead :
          (fuel end : ℕ) (m : M) (r : Reader)
          → length r.buf - r.pos < fuel
          → Ahead r (read_fields fuel end m r)
      read_fields-Ahead zero end m r h = absurd (omega arith)
      read_fields-Ahead (suc fuel) end m r h = elim (Bool-cases (ltb r.pos end)) [
        | inl more ↦ rw (read_fields-more fuel end m r (ltb→lt _ _ more)) (
            Ahead-bind_eq _ _ (Ahead-read P.uint32 r) λ tag r₁ e.
              Ahead-bind_eq _ _ (ahead m tag r₁) λ m₁ r₂ k.
                read_fields-Ahead fuel end m₁ r₂
                  (omega (arith, fewer (attempt-eq-ok (P.uint32.read r) e) k)))
        | inr done ↦ rw (read_fields-end fuel end m r (ltb→le _ _ done)) (Ahead-done r m)
      ]
