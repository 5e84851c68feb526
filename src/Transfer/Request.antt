-- ===== src/Transfer/Request.antt =====
-- A request for a transfer, its validation, and the settings of the service.
use payments_engine.Base.{
  ℕ, Bool, not, ◌||◌, Option, [], Text, text, ◌==◌, nat_eq, text_eq, if◌then◌else◌, ◌++◌,
}
use payments_engine.Base.Strings.{trim_space, to_upper}
use payments_engine.Error.{Error, sentinel, wrap, invalid_transfer, Result, ok, err}
use payments_engine.Decimal.{Decimals}
use payments_engine.Money
use payments_engine.Money.{from_decimal}

pub record TransferRequest (D : Type 0) : Type 0 where
  pub idempotency_key : Text
  pub from_account_id : ℕ
  pub to_account_id : ℕ
  pub amount : D
  pub currency : Text
  pub rail : Option Text
  pub description : Option Text

-- The fields of TransferService that decide what it does; a store, a ledger or an audit logger may
-- be missing.
pub record Config : Type 0 where
  pub clearing_code : Text
  pub posted_by : Text
  pub has_store : Bool
  pub has_ledger : Bool
  pub has_audit : Bool

-- uuid.Nil
abbrev pub nil_id : ℕ
nil_id = 0

abbrev pub invalid : Text → Error
invalid why = wrap why (sentinel invalid_transfer)

module _ {D : Type 0} ⦃o : Decimals D⦄ where
  unfoldable pub validate_transfer_request : TransferRequest D → Result (Unit {0})
  validate_transfer_request req =
      let currency = to_upper (trim_space req.currency) in
      if trim_space req.idempotency_key == []
      then err (invalid (text "idempotency key is required"))
      else if (req.from_account_id == nil_id) || (req.to_account_id == nil_id)
      then err (invalid (text "account ids are required"))
      else if req.from_account_id == req.to_account_id
      then err (invalid (text "source and destination must differ"))
      else if not (Money.is_positive (from_decimal req.amount currency))
      then err (invalid (text "amount must be > 0"))
      else if currency == []
      then err (invalid (text "currency is required"))
      else ok tt

abbrev pub idempotency_transfer_key : Text → Text
idempotency_transfer_key key = text "transfer:" ++ key
