-- ===== src/Server/Subsampling/Amount.antt =====
-- How many rows SubsamplingHandler of src/handlers/SubsamplingHandler.cpp sends, and what `decodeTsRecord`
-- of tsclient/recstore-ts/src/index.ts makes of them.
use timemachine.Base.{
  ℕ, zero, suc, ◌+◌, ◌-◌, ◌^◌, ◌≤◌, ◌<◌, ◌≡◌, refl, sym, ap, ap₂, ◌*◌, ◌∙◌, List, [], ◌∷◌, ◌++◌,
  map, append_assoc, append-nil, length, length-append, true, some, All, All-append, All-every,
  length-map, lt→ltb, arith, if◌then◌else◌,
}
use timemachine.Protobuf.Outcome.{ok}
use timemachine.Index.TsRecords.{ByteBuffers, TsRecord, decode_ts_record}
use timemachine.Index.TsRecords.Laws.{record_of}
use timemachine.Server.GenerateId.{UniqueRange}
use timemachine.Server.GetRange.{BinaryWriter, Row, IsRow, send_row, send_rows}
use timemachine.Server.GetRange.Handler.{Response}
use timemachine.Server.GetRange.Client.{decode_ts_record-send_rows}
use timemachine.Server.Subsampling.{
  Store, SubsampleRequest, range_of, step_of, random_keys, sample, handle_subsampling, done,
  crashed, answer, has_room,
}

step_of-positive : (request : SubsampleRequest) → 0 < request.amount → 0 < step_of request
unfolding step_of
step_of-positive request some_amount = ground arith

pub step_of-amount : (request : SubsampleRequest) → step_of request ≤ request.amount
unfolding step_of
step_of-amount request = ground arith

last_step :
    (i step n : ℕ) → n < suc i - step + step → (suc i - step ≡ 0 → n ≡ 0) → step + n < suc i + step
last_step i step n high none_left = ground (arith, none_left)

module _ (W : BinaryWriter) where
  send_rows-append : (xs ys : List Row) → send_rows W (xs ++ ys) ≡ send_rows W xs ++ send_rows W ys
  unfolding send_rows
  send_rows-append [] ys = refl
  send_rows-append (x ∷ xs) ys =
      ap (λ t. send_row W x ++ t) (send_rows-append xs ys)
      ∙ sym (append_assoc (send_row W x) (send_rows W xs) (send_rows W ys))

  module _ (parse : List ℕ → Row) (random : UniqueRange → ℕ → ℕ) (stack : ℕ)
      (parse-IsRow : (bytes : List ℕ) → IsRow (parse bytes)) where
    length-random_keys :
        (range : UniqueRange) (call step : ℕ)
        → length (random_keys W parse random stack range call step) ≡ step
    unfolding random_keys
    length-random_keys range call zero = refl
    length-random_keys range call (suc step) =
        omega (arith, length-random_keys range (call + 1) step)

    -- The rows that the loop sends for what is left, a step at a time.
    abbrev Sent : Store → UniqueRange → ℕ → ℕ → ℕ → ℕ → List ℕ → List Row → Type 0
    Sent folder range step fuel i call ostr rows =
        (sample W parse random stack folder range step fuel i call ostr
          ≡ done (ostr ++ send_rows W rows))
        × All IsRow rows
        × (i ≤ length rows)
        × (length rows < i + step)
        × (i ≡ 0 → length rows ≡ 0)

    sample-rows :
        (folder : Store) (range : UniqueRange) (step fuel i call : ℕ) (ostr : List ℕ)
        → 0 < step
        → i < fuel
        → has_room W parse random stack step ≡ true
        → (rows : List Row) × Sent folder range step fuel i call ostr rows
    unfolding sample send_rows
    sample-rows folder range step zero i call ostr moves room fits = absurd (omega (arith, room))
    sample-rows folder range step (suc fuel) zero call ostr moves room fits =
        ([], (ap done (sym (append-nil ostr)), _, omega arith, omega arith, λ e. refl))
    sample-rows folder range step (suc fuel) (suc i) call ostr moves room fits = add_batch (
        sample-rows folder range step fuel (suc i - step) (call + step) (ostr ++ send_rows W batch)
          moves (omega arith) fits)
      where
        found : List (List ℕ)
        found = folder.get_batch (random_keys W parse random stack range call step)

        batch : List Row
        batch = map parse found

        length_batch : length batch ≡ step
        length_batch =
            length-map parse found
            ∙ folder.length-get_batch (random_keys W parse random stack range call step)
            ∙ length-random_keys range call step

        add_batch :
            ((rows : List Row) × Sent folder range step fuel
                (suc i - step)
                (call + step)
                (ostr ++ send_rows W batch)
                rows)
            → (rows : List Row) × Sent folder range step (suc fuel) (suc i) call ostr rows
        add_batch (rows, (eq, valid, low, high, none_left)) = (
          batch ++ rows,
          (
            ap₂
                  (λ b c.
                    if b
                    then if c
                      then sample W parse random stack folder range step fuel (suc i - step)
                          (call + step) (ostr ++ send_rows W batch)
                      else crashed
                    else done ostr)
                  (lt→ltb 0 (suc i) (omega arith)) fits
                ∙ eq
                ∙ ap done (
                    append_assoc ostr (send_rows W batch) (send_rows W rows)
                    ∙ ap (λ t. ostr ++ t) (sym (send_rows-append batch rows))),
            All-append IsRow batch rows (All-every IsRow parse parse-IsRow found) valid,
            omega (arith, length-append batch rows, length_batch, low),
            omega (
              arith,
              length-append batch rows,
              length_batch,
              last_step i step (length rows) high none_left,
            ),
            λ e. absurd (omega (arith, e)),
          ),
        )

    room_for :
        (step : ℕ)
        → 16 * step ≤ stack
        → 16 * step < 2 ^ 31
        → has_room W parse random stack step ≡ true
    room_for step fits int = ground arith

    -- SubsamplingHandler sends at least as many rows as it is asked for, and less than a step more:
    -- `decodeTsRecord` of the answer returns that many records, and the status is 200. This is if the
    -- amount is not 0 and below 2 ^ 31, the keys of a step, of 16 bytes each, fit on the stack and are
    -- fewer than 2 ^ 31 bytes, the numbers that are parsed fit in 64 bits and bodies are shorter than
    -- 2 ^ 31 bytes, and the loop has fuel for each row that is asked for and one round more.
    pub decode_ts_record-handle_subsampling :
        (B : ByteBuffers) (fuel : ℕ) (folder : Store) (request : SubsampleRequest)
        → 0 < request.amount
        → request.amount < 2 ^ 31
        → request.amount < fuel
        → 16 * step_of request ≤ stack
        → 16 * step_of request < 2 ^ 31
        → (response : Response) × (records : List (TsRecord B)) × (handle_subsampling W parse random
              stack fuel
              (some folder)
              request
            ≡ done response)
          × (response.status ≡ 200)
          × (decode_ts_record B response.body ≡ ok records)
          × (request.amount ≤ length records)
          × (length records < request.amount + step_of request)
    unfolding handle_subsampling
    decode_ts_record-handle_subsampling B fuel folder request asked small room fits int =
        let (rows, (eq, valid, low, high, _)) =
          sample-rows folder (range_of folder request) (step_of request) fuel request.amount 0 []
            (step_of-positive request asked) room (room_for (step_of request) fits int) in
        (
          record { status = 200; body = send_rows W rows },
          map (record_of B) rows,
          ap
                (λ b. answer W parse random stack (
                  sample W parse random stack folder (range_of folder request) (step_of request)
                    fuel (if b then request.amount else 0) 0 []))
                (lt→ltb request.amount (2 ^ 31) small)
              ∙ ap (answer W parse random stack) eq,
          refl,
          decode_ts_record-send_rows W B rows valid,
          omega (arith, low, length-map (record_of B) rows),
          omega (arith, high, length-map (record_of B) rows),
        )
