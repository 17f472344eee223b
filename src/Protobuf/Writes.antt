-- ===== src/Protobuf/Writes.antt =====
-- What the writer's methods add to the bytes written, and how such steps follow one another.
use timemachine.Base.{ℕ, ◌≡◌, sym, ap, ◌∙◌, List, [], ◌++◌, append_assoc, append-nil, length}
use timemachine.Protobuf.Runtime.{Runtime, Scalar, Buffers, append_bytes, IsUint32}

append_bytes-nil : (b : Buffers) → append_bytes b [] ≡ b
append_bytes-nil b = ap (λ l. record b { written = l }) (append-nil b.written)

append_bytes-append :
    (b : Buffers) (xs ys : List ℕ) → append_bytes (append_bytes b xs) ys ≡ append_bytes b (xs ++ ys)
append_bytes-append b xs ys = ap (λ l. record b { written = l }) (append_assoc b.written xs ys)

module _ (P : Runtime) where
  -- `w'` is `w` with `bytes` written.
  abbrev pub Writes : P.Writer → P.Writer → List ℕ → Type 0
  Writes w w' bytes = P.buffers w' ≡ append_bytes (P.buffers w) bytes

  -- A value behind its length, as `fork` and `ldelim` leave it.
  abbrev pub sized : List ℕ → List ℕ
  sized inner = P.uint32.wire (length inner) ++ inner

  pub Writes-nil : (w : P.Writer) → Writes w w []
  Writes-nil w = sym (append_bytes-nil (P.buffers w))

  pub Writes-append :
      (w w₁ w₂ : P.Writer) (xs ys : List ℕ)
      → Writes w w₁ xs
      → Writes w₁ w₂ ys
      → Writes w w₂ (xs ++ ys)
  Writes-append w w₁ w₂ xs ys h k =
      k ∙ ap (λ b. append_bytes b ys) h ∙ append_bytes-append (P.buffers w) xs ys

  pub Writes-fork :
      (w w' : P.Writer) (inner : List ℕ)
      → IsUint32 (length inner)
      → Writes (P.fork w) w' inner
      → Writes w (P.ldelim w') (sized inner)
  Writes-fork w w' inner small h =
      P.ldelim-buffers w' inner (P.buffers w).written (P.buffers w).saved
        (h ∙ ap (λ b. append_bytes b inner) (P.fork-buffers w)) small

  -- A tag, and a scalar behind it.
  pub Writes-field :
      {A : Type 0} {InRange : A → Type 0} (S : Scalar P.Writer P.buffers A InRange)
      → (w : P.Writer) (tag : ℕ) (a : A) → IsUint32 tag
      → InRange a
      → Writes w (S.put (P.uint32.put w tag) a) (P.uint32.wire tag ++ S.wire a)
  Writes-field S w tag a small h =
      Writes-append w (P.uint32.put w tag) (S.put (P.uint32.put w tag) a) (P.uint32.wire tag)
        (S.wire a) (P.uint32.put-buffers w tag small) (S.put-buffers (P.uint32.put w tag) a h)
