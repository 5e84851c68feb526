-- ===== src/Transaction/Status.antt =====
-- internal/transaction/transaction.go: a transfer's record and its states.
pub mod Laws
pub mod Tests
use payments_engine.Base.{
  ℕ, Bool, true, false, Option, none, some, List, [], ◌∷◌, Text, text, text_beq, if◌then◌else◌,
}
use payments_engine.Error.{Error, sentinel, message, unknown_status, Result, ok, err}
use payments_engine.Money.{Money, from_decimal}

-- A string that is none of the constants is `other`.
pub data TxStatus : Type 0 where
  pending processing settled failed reversed on_hold expired reconciled : TxStatus
  other : Text → TxStatus

abbrev pub status_beq : TxStatus → TxStatus → Bool
status_beq pending pending = true
status_beq processing processing = true
status_beq settled settled = true
status_beq failed failed = true
status_beq reversed reversed = true
status_beq on_hold on_hold = true
status_beq expired expired = true
status_beq reconciled reconciled = true
status_beq (other s) (other t) = text_beq s t
status_beq _ _ = false

-- Times are numbers; a `failure_reason` is the error whose text the code stores.
pub record Transaction (D : Type 0) : Type 0 where
  pub id : ℕ
  pub idempotency_key : Text
  pub from_account_id : ℕ
  pub to_account_id : ℕ
  pub amount : D
  pub currency : Text
  pub status : TxStatus
  pub description : Option Text
  pub metadata : Option Text
  pub rail : Option Text
  pub external_ref : Option Text
  pub failure_reason : Option Error
  pub journal_entry_id : Option ℕ
  pub created_at : ℕ
  pub updated_at : ℕ
  pub settled_at : Option ℕ
  pub expires_at : Option ℕ

-- `none` is a key that the map does not have.
abbrev pub valid_transitions : TxStatus → Option (List TxStatus)
valid_transitions pending = some (processing ∷ failed ∷ expired ∷ [])
valid_transitions processing = some (settled ∷ failed ∷ [])
valid_transitions settled = some (reversed ∷ reconciled ∷ [])
valid_transitions failed = some []
valid_transitions reversed = some []
valid_transitions reconciled = some []
valid_transitions on_hold = none
valid_transitions expired = none
valid_transitions (other _) = none

abbrev pub allows : List TxStatus → TxStatus → Bool
allows [] next = false
allows (s ∷ ss) next = if status_beq s next then true else allows ss next

module _ {D : Type 0} where
  -- `now` is the time that time.Now returns.
  pub transition_to : ℕ → TxStatus → Transaction D → Result (Transaction D)
  transition_to now next tx =
      if status_beq tx.status next
      then err (message (text "already in status"))
      else elim (valid_transitions tx.status) [
        | none ↦ err (sentinel unknown_status)
        | some allowed ↦
            if allows allowed next
            then ok (record tx { status = next; updated_at = now })
            else err (message (text "invalid transition"))
      ]

  pub money : Transaction D → Money D
  money tx = from_decimal tx.amount tx.currency
