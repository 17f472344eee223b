-- ===== src/Index/TsRecords/Total.antt =====
-- `decodeTsRecord` of index.ts on any bytes: it ends, its map merges nothing, and a rest that is
-- shorter than the numbers of a row makes it throw.
use timemachine.Base.{
  ℕ, zero, suc, ◌+◌, ◌-◌, ◌<◌, ◌≤◌, ◌≡◌, ◌≢◌, refl, sym, ap, subst, ◌∙◌, List, [], ◌∷◌, ◌++◌, map,
  length, ltb, All, All-snoc, length-append, arith, ltb→lt, ltb→le, Bool-cases, inl, inr,
}
use timemachine.JsObject.{set_key}
use timemachine.Protobuf.Outcome.{
  Result, Failure, ok-injective, throw-ne-stuck, >>=-throw, Result-cases, ok, throw, stuck, attempt,
  attempt-eq-ok, attempt-ne-stuck, ◌>>=◌, >>=-step, >>=-eq-ok, >>=-ne-stuck, >>=-ne-stuck_ok,
}
use timemachine.Protobuf.Runtime.{Reader, advance}
use timemachine.Index.TsRecords.{
  ByteBuffers, TsRecord, JsMap, new_map, map_has, group, group_all, read_record, read_records,
  decode_ts_record,
}
use timemachine.Index.TsRecords.Laws.{
  read_records-more, read_records-end, read_records-rows, rows_bytes, start, record_of,
}
use timemachine.Server.GetRange.{Row, IsRow}

module _ (B : ByteBuffers) where
  -- One entry.
  abbrev pub IsSingle : TsRecord B → Type 0
  IsSingle r = length (TsRecord.entries r) ≡ 1

  -- What the four reads of a round do to the buffer, taken together.
  forward :
      (bb a b c d : Reader)
      → (a.buf ≡ bb.buf) × (a.pos ≡ bb.pos + 8) × (a.pos ≤ length bb.buf)
      → (b.buf ≡ a.buf) × (b.pos ≡ a.pos + 8) × (b.pos ≤ length a.buf)
      → (c.buf ≡ b.buf) × (c.pos ≡ b.pos + 4) × (c.pos ≤ length b.buf)
      → (d.buf ≡ c.buf) × (c.pos ≤ d.pos)
      → (d.buf ≡ bb.buf) × (bb.pos + 20 ≤ d.pos) × (bb.pos + 20 ≤ length bb.buf)
  forward bb a b c d (e₁, f₁, g₁) (e₂, f₂, g₂) (e₃, f₃, g₃) (e₄, f₄) =
      (e₄ ∙ e₃ ∙ e₂ ∙ e₁, omega arith, omega (arith, ap length e₁, ap length e₂))

  -- A round that returns made one entry, and took twenty bytes that were there.
  read_record-took :
      (bb : Reader) (r : TsRecord B) (bb' : Reader)
      → read_record B bb ≡ ok (r, bb')
      → IsSingle r × (bb'.buf ≡ bb.buf) × (bb.pos + 20 ≤ bb'.pos) × (bb.pos + 20 ≤ length bb.buf)
  unfolding read_record
  read_record-took bb r bb' h =
      let (p, e₁, h₁) = >>=-eq-ok (attempt (B.read_long bb)) _ h in
      let (q, e₂, h₂) = >>=-eq-ok (attempt (B.read_long p.1)) _ h₁ in
      let (z, e₃, h₃) = >>=-eq-ok (attempt (B.read_int q.1)) _ h₂ in
      let (t, e₄, h₄) = >>=-eq-ok (attempt (B.read_bytes z.0 z.1)) _ h₃ in
      let f =
        forward bb p.1 q.1 z.1 t.1 (B.read_long-forward bb p.1 p.0 (attempt-eq-ok _ e₁))
          (B.read_long-forward p.1 q.1 q.0 (attempt-eq-ok _ e₂))
          (B.read_int-forward q.1 z.1 z.0 (attempt-eq-ok _ e₃))
          (B.read_bytes-forward z.1 t.1 z.0 t.0 (attempt-eq-ok _ e₄)) in
      let same = ok-injective h₄ in
      (
        ap (λ (x : TsRecord B × Reader). length (TsRecord.entries x.0)) (sym same),
        ap (λ (x : TsRecord B × Reader). x.1.buf) (sym same) ∙ f.0,
        subst (λ (x : TsRecord B × Reader). bb.pos + 20 ≤ x.1.pos) same f.1,
        f.2,
      )

  read_record-ne-stuck : (bb : Reader) → read_record B bb ≢ stuck
  unfolding read_record
  read_record-ne-stuck bb = >>=-ne-stuck _ _ (attempt-ne-stuck (B.read_long bb)) λ p.
      >>=-ne-stuck _ _ (attempt-ne-stuck (B.read_long p.1)) λ q.
        >>=-ne-stuck _ _ (attempt-ne-stuck (B.read_int q.1))
          λ z. >>=-ne-stuck_ok _ _ (attempt-ne-stuck (B.read_bytes z.0 z.1))

  read_records-ne-stuck :
      (fuel : ℕ) (records : List (TsRecord B)) (bb : Reader)
      → length bb.buf - bb.pos < fuel
      → read_records B fuel records bb ≢ stuck
  read_records-ne-stuck zero records bb h = absurd (omega arith)
  read_records-ne-stuck (suc fuel) records bb h = elim (Bool-cases (ltb bb.pos (length bb.buf))) [
    | inl more ↦
        subst (λ x. x ≢ stuck) (sym (read_records-more B fuel records bb (ltb→lt _ _ more)))
          (elim (Result-cases (read_record B bb) (read_record-ne-stuck bb)) [
            | inl ((r, bb'), e) ↦
                let (one, same, next, room) = read_record-took bb r bb' e in
                λ k.
                  read_records-ne-stuck fuel (records ++ (r ∷ [])) bb'
                    (omega (arith, ap length same)) (sym (>>=-step _ (r, bb') e refl) ∙ k)
            | inr (err, e) ↦ λ k. throw-ne-stuck (read_record B bb) _ e k
          ])
    | inr done ↦
        subst (λ x. x ≢ stuck) (sym (read_records-end B fuel records bb (ltb→le _ _ done))) λ k. cc
  ]

  -- Fewer than twenty bytes are no row.
  read_record-short :
      (bb : Reader) → length bb.buf < bb.pos + 20 → (e : Failure) × (read_record B bb ≡ throw e)
  read_record-short bb h = elim (Result-cases (read_record B bb) (read_record-ne-stuck bb)) [
    | inl ((r, bb'), e) ↦
        let (one, same, next, room) = read_record-took bb r bb' e in absurd (omega arith)
    | inr thrown ↦ thrown
  ]

  -- Each record that the loop appends has one entry.
  read_records-IsSingle :
      (fuel : ℕ) (records : List (TsRecord B)) (bb : Reader) (rs : List (TsRecord B))
      → All IsSingle records
      → read_records B fuel records bb ≡ ok rs
      → All IsSingle rs
  unfolding read_records
  read_records-IsSingle zero records bb rs ones h = cc
  read_records-IsSingle (suc fuel) records bb rs ones h =
      elim (Bool-cases (ltb bb.pos (length bb.buf))) [
        | inl more ↦
            let ((r, bb'), e, k) =
              >>=-eq-ok (read_record B bb) _
                (sym (read_records-more B fuel records bb (ltb→lt _ _ more)) ∙ h) in
            let (one, same, next, room) = read_record-took bb r bb' e in
            read_records-IsSingle fuel (records ++ (r ∷ [])) bb' rs
              (All-snoc IsSingle records r ones one) k
        | inr done ↦
            subst (All IsSingle)
              (ok-injective (sym (read_records-end B fuel records bb (ltb→le _ _ done)) ∙ h)) ones
      ]

  -- The map never has a key, since nothing is `set`: each record is assigned to a property.
  group_unmerged :
      (m : JsMap B) (obj : TsRecord B)
      → JsMap.entries m ≡ []
      → group B m obj
        ≡ ok (record m {
          properties = set_key (B.to_text (TsRecord.ts obj)) obj (JsMap.properties m);
        })
  unfolding group
  group_unmerged m obj h = rw (ap (map_has B (TsRecord.ts obj)) h, group)

  group_all_returns :
      (records : List (TsRecord B)) (m : JsMap B)
      → JsMap.entries m ≡ []
      → (m' : JsMap B) × (group_all B m records ≡ ok m')
  unfolding group_all
  group_all_returns [] m h = (m, refl)
  group_all_returns (obj ∷ records) m h =
      let (m', e) = group_all_returns records _ h in (m', >>=-step _ _ (group_unmerged m obj h) e)

  -- What follows the loop keeps its records.
  pub decode_ts_record-eq :
      (bytes : List ℕ)
      → decode_ts_record B bytes ≡ read_records B (suc (length bytes)) [] (start bytes)
  unfolding decode_ts_record
  decode_ts_record-eq bytes =
      rest (read_records B (suc (length bytes)) [] (B.wrap bytes))
      ∙ ap (read_records B (suc (length bytes)) []) (B.wrap_lem bytes)
    where
      rest :
          (x : Result (List (TsRecord B)))
          → (x >>= λ records. group_all B (new_map B) records >>= λ m. ok records) ≡ x
      rest (ok records) =
          let (m, e) = group_all_returns records (new_map B) refl in
          >>=-step (λ (m : JsMap B). ok records) m e refl
      rest (throw e) = refl
      rest stuck = refl

  -- `decodeTsRecord` of any bytes returns or throws: its loop ends, since each round that does not
  -- throw moves the offset.
  pub decode_ts_record-ne-stuck : (bytes : List ℕ) → decode_ts_record B bytes ≢ stuck
  decode_ts_record-ne-stuck bytes =
      subst (λ x. x ≢ stuck) (sym (decode_ts_record-eq bytes))
        (read_records-ne-stuck (suc (length bytes)) [] (start bytes) (omega arith))

  -- Every record that `decodeTsRecord` returns, of any bytes, has exactly one entry: records of the
  -- same timestamp are never joined, though a map is built to join them.
  pub decode_ts_record-IsSingle :
      (bytes : List ℕ) (records : List (TsRecord B))
      → decode_ts_record B bytes ≡ ok records
      → All IsSingle records
  decode_ts_record-IsSingle bytes records h =
      read_records-IsSingle (suc (length bytes)) [] (start bytes) records _
        (sym (decode_ts_record-eq bytes) ∙ h)

  -- If the bytes of rows in range are followed by at least one byte and by fewer than twenty,
  -- `decodeTsRecord` throws.
  pub decode_ts_record-truncated :
      (rows : List Row) (rest : List ℕ)
      → All IsRow rows
      → 0 < length rest
      → length rest < 20
      → (e : Failure) × (decode_ts_record B (rows_bytes rows ++ rest) ≡ throw e)
  decode_ts_record-truncated rows rest valid some_left few =
      let bytes = rows_bytes rows ++ rest in
      let (fuel, enough, run) =
        read_records-rows B rows (suc (length bytes)) [] (start bytes) rest valid (omega arith)
          refl in
      short fuel (map (record_of B) rows) (advance (start bytes) (length (rows_bytes rows))) enough
        (omega (arith, length-append (rows_bytes rows) rest))
        (omega (arith, length-append (rows_bytes rows) rest)) (decode_ts_record-eq bytes ∙ run)
    where
      short :
          (fuel : ℕ) (records : List (TsRecord B)) (bb : Reader) {x : Result (List (TsRecord B))}
          → length rest < fuel
          → bb.pos < length bb.buf
          → length bb.buf < bb.pos + 20
          → x ≡ read_records B fuel records bb
          → (e : Failure) × (x ≡ throw e)
      short zero records bb h more few e = absurd (omega arith)
      short (suc fuel) records bb h more few e =
          let (err, k) = read_record-short bb few in
          (err, e ∙ read_records-more B fuel records bb more ∙ >>=-throw _ k)
