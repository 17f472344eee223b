-- ===== src/Server/GetRange/Limits.antt =====
-- The rows that GetRangeHandler of src/handlers/GetRangeHandler.cpp sends before a limit is reached.
use timemachine.Base.{
  ℕ, zero, suc, arith, ◌+◌, take, ◌≡◌, refl, ap, ◌∙◌, List, [], ◌∷◌, Bool, true, false, All, ◌<◌,
}
use timemachine.Protobuf.Runtime.{IsLong}
use timemachine.Server.Iter.{RangeRequest, plus}
use timemachine.Server.Iter.Scan.{is_spent}
use timemachine.Server.GetRange.{BinaryWriter, Row, sent_bytes}

spent_at_limit :
    (request : RangeRequest) (b m : ℕ)
    → request.maxbytes ≡ 0
    → 0 < request.maxmessages
    → m ≡ request.maxmessages
    → is_spent request b m ≡ true
spent_at_limit request b m unset set eq = ground arith

unspent_below :
    (request : RangeRequest) (b m : ℕ)
    → request.maxbytes ≡ 0
    → m < request.maxmessages
    → is_spent request b m ≡ false
unspent_below request b m unset below = ground arith

unspent_unset :
    (request : RangeRequest) (b m : ℕ)
    → request.maxbytes ≡ 0
    → request.maxmessages ≡ 0
    → is_spent request b m ≡ false
unspent_unset request b m no_bytes no_messages = ground arith

module _ (W : BinaryWriter) where
  -- The rows that are sent before a limit of the request is reached.
  abbrev pub within_limits : RangeRequest → List Row → ℕ → ℕ → List Row
  within_limits request [] bytes_sent messages_sent = []
  within_limits request (row ∷ rows) bytes_sent messages_sent =
      let rest =
        within_limits request rows (plus bytes_sent (sent_bytes W row)) (plus messages_sent 1) in
      elim (is_spent request bytes_sent messages_sent) [ true ↦ [] | false ↦ row ∷ rest ]

  pub All-within_limits :
      (P : Row → Type 0) (request : RangeRequest) (rows : List Row) (b m : ℕ)
      → All P rows
      → All P (within_limits request rows b m)
  All-within_limits P request [] b m h = _
  All-within_limits P request (row ∷ rows) b m (h, hs) =
      keep (is_spent request b m)
        (All-within_limits P request rows (plus b (sent_bytes W row)) (plus m 1) hs)
    where
      later : List Row
      later = within_limits request rows (plus b (sent_bytes W row)) (plus m 1)

      keep : (spent : Bool) → All P later → All P (elim spent [ true ↦ [] | false ↦ row ∷ later ])
      keep true rest = _
      keep false rest = (h, rest)

  pub within_limits-take :
      (request : RangeRequest) (rows : List Row) (b m left : ℕ)
      → request.maxbytes ≡ 0
      → 0 < request.maxmessages
      → IsLong request.maxmessages
      → m + left ≡ request.maxmessages
      → within_limits request rows b m ≡ take left rows
  within_limits-take request [] b m zero unset set long eq = refl
  within_limits-take request [] b m (suc left) unset set long eq = refl
  within_limits-take request (row ∷ rows) b m zero unset set long eq =
      ap
        (λ t. elim t [
          | true ↦ []
          | false ↦ row ∷ within_limits request rows (plus b (sent_bytes W row)) (plus m 1)
        ])
        (spent_at_limit request b m unset set (omega arith))
  within_limits-take request (row ∷ rows) b m (suc left) unset set long eq =
      ap
        (λ t. elim t [
          | true ↦ []
          | false ↦ row ∷ within_limits request rows (plus b (sent_bytes W row)) (plus m 1)
        ])
        (unspent_below request b m unset (omega arith))
      ∙ ap (λ t. row ∷ t)
          (within_limits-take request rows (plus b (sent_bytes W row)) (plus m 1) left unset set
            long (omega arith))

  pub within_limits-unset :
      (request : RangeRequest) (rows : List Row) (b m : ℕ)
      → request.maxbytes ≡ 0
      → request.maxmessages ≡ 0
      → within_limits request rows b m ≡ rows
  within_limits-unset request [] b m no_bytes no_messages = refl
  within_limits-unset request (row ∷ rows) b m no_bytes no_messages =
      ap
        (λ t. elim t [
          | true ↦ []
          | false ↦ row ∷ within_limits request rows (plus b (sent_bytes W row)) (plus m 1)
        ])
        (unspent_unset request b m no_bytes no_messages)
      ∙ ap (λ t. row ∷ t)
          (within_limits-unset request rows (plus b (sent_bytes W row)) (plus m 1) no_bytes
            no_messages)
