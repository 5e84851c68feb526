-- ===== src/Api/Transfers.antt =====
-- api/handler/transfer_handler.go.
use payments_engine.Base.{
  ℕ, not, List, [], Option, none, some, Text, text, ◌==◌, text_eq, map, if◌then◌else◌,
}
use payments_engine.Base.Strings.{trim_space, to_upper}
use payments_engine.Error.{
  Error, Result, ok, err, is_error, invalid_transfer, insufficient_funds, currency_mismatch,
  clearing_account_not_found, snapshot_not_found, transfer_in_progress, transaction_not_found,
}
use payments_engine.Decimal.{Decimals}
use payments_engine.Api.Accounts.{internal_error, bad_request, invalid_json}
use payments_engine.Api.Answer.{
  Formats, said, message_of, Answer, transaction_body, audit_body, Handler, write, refuse, reply,
  calling, transaction_response, audit_response,
}
use payments_engine.Api.AuditQuery.{parse_audit_time_query}
use payments_engine.Audit.{AuditEvent, transaction}
use payments_engine.AuditLog.{get_by_entity_range}
use payments_engine.Store.{Env}
use payments_engine.Transaction.Repository.{get_transaction_by_id}
use payments_engine.Transaction.Status.{Transaction}
use payments_engine.Transfer.Request.{TransferRequest, Config}
use payments_engine.Transfer.Service.{transfer}
use payments_engine.World.{on_pool}

pub record CreateTransferRequest : Type 0 where
  pub from_account_id : Text
  pub to_account_id : Text
  pub amount : Text
  pub currency : Text
  pub rail : Option Text
  pub description : Option Text

module _ {D : Type 0} where
  abbrev pub shown_error : ℕ → Text → Error → Answer D
  shown_error status code e = refuse status code (message_of e) (message_of e)

  -- writeTransferError: the first sentinel that the error wraps decides
  unfoldable pub write_transfer_error : Error → Answer D
  write_transfer_error e =
      if is_error e invalid_transfer
      then shown_error 400 (text "invalid_transfer") e
      else if is_error e insufficient_funds
      then shown_error 400 (text "insufficient_funds") e
      else if is_error e currency_mismatch
      then shown_error 400 (text "currency_mismatch") e
      else if is_error e clearing_account_not_found
      then shown_error 404 (text "clearing_account_not_found") e
      else if is_error e snapshot_not_found
      then shown_error 404 (text "account_not_found") e
      else if is_error e transfer_in_progress
      then shown_error 409 (text "transfer_in_progress") e
      else refuse 500 (text "internal_error") (message_of e) (said (text "internal server error"))

  abbrev pub transfer_missing : Answer D
  transfer_missing =
      refuse 404 (text "transfer_not_found") (said (text "transfer was not found for provided id"))
        (said (text "transfer not found"))

-- `trace` is the trace id of the request's context
module _ {D : Type 0} ⦃o : Decimals D⦄ (form : Formats) (env : Env) (cfg : Config) where
  abbrev pub transferred_answer : Result (Transaction D) → Handler D
  transferred_answer (err e) = reply (write_transfer_error e)
  transferred_answer (ok tx) = reply (write 201 (transaction_body (transaction_response form tx)))

  abbrev pub transfer_request : Text → CreateTransferRequest → ℕ → ℕ → D → TransferRequest D
  transfer_request key req from_id to_id amount = record {
    idempotency_key = key;
    from_account_id = from_id;
    to_account_id = to_id;
    amount = amount;
    currency = to_upper (trim_space req.currency);
    rail = req.rail;
    description = req.description;
  }

  abbrev pub transfer_amount : Text → Text → CreateTransferRequest → ℕ → ℕ → Option D → Handler D
  transfer_amount trace key req from_id to_id none = reply (
      bad_request (text "invalid_amount") (text "amount must be a valid decimal number")
        (text "invalid amount"))
  transfer_amount trace key req from_id to_id (some amount) =
      calling (transfer env cfg trace (transfer_request key req from_id to_id amount))
        transferred_answer

  abbrev pub transfer_to : Text → Text → CreateTransferRequest → ℕ → Option ℕ → Handler D
  transfer_to trace key req from_id none = reply (
      bad_request (text "invalid_to_account_id") (text "to_account_id is not a valid UUID")
        (text "invalid to_account_id"))
  transfer_to trace key req from_id (some to_id) =
      transfer_amount trace key req from_id to_id (o.from_string (trim_space req.amount))

  abbrev pub transfer_from : Text → Text → CreateTransferRequest → Option ℕ → Handler D
  transfer_from trace key req none = reply (
      bad_request (text "invalid_from_account_id") (text "from_account_id is not a valid UUID")
        (text "invalid from_account_id"))
  transfer_from trace key req (some from_id) =
      transfer_to trace key req from_id (form.parse_uuid (trim_space req.to_account_id))

  abbrev pub transfer_decoded : Text → Text → Option CreateTransferRequest → Handler D
  transfer_decoded trace key none = reply invalid_json
  transfer_decoded trace key (some req) =
      transfer_from trace key req (form.parse_uuid (trim_space req.from_account_id))

  -- `header` is X-Idempotency-Key, empty where it is not given
  unfoldable pub create_transfer_handler : Text → Text → Option CreateTransferRequest → Handler D
  create_transfer_handler trace header body =
      let key = trim_space header in
      if key == []
      then reply (
          bad_request (text "missing_idempotency_header")
            (text "X-Idempotency-Key header is required")
            (text "X-Idempotency-Key header is required"))
      else transfer_decoded trace key body

  abbrev pub transfer_found : (Transaction D → Handler D) → Result (Transaction D) → Handler D
  transfer_found found (ok tx) = found tx
  transfer_found found (err e) =
      if is_error e transaction_not_found
      then reply transfer_missing
      else reply (internal_error (text "failed to load transfer by id"))

  abbrev pub get_transfer_with : Option ℕ → Handler D
  get_transfer_with none = reply (
      bad_request (text "invalid_transfer_id") (text "transfer id is not a valid UUID")
        (text "invalid transfer id"))
  get_transfer_with (some id) =
      calling (on_pool (get_transaction_by_id env id))
        (transfer_found (λ tx. reply (write 200 (transaction_body (transaction_response form tx)))))

  unfoldable pub get_transfer_handler : Text → Handler D
  get_transfer_handler id = get_transfer_with (form.parse_uuid id)

  abbrev pub transfer_audit_answer : Result (List (AuditEvent D)) → Handler D
  transfer_audit_answer (ok events) =
      reply (write 200 (audit_body (map (audit_response form) events)))
  transfer_audit_answer (err e) =
      reply (internal_error (text "failed to load audit log for transaction"))

  abbrev pub transfer_audit_between : ℕ → Result (Option ℕ × Option ℕ) → Handler D
  transfer_audit_between id (err e) = reply (shown_error 400 (text "invalid_query") e)
  transfer_audit_between id (ok (from, to)) =
      calling (get_by_entity_range env transaction id from to) transfer_audit_answer

  abbrev pub transfer_audit_with : Option ℕ → Text → Text → Handler D
  transfer_audit_with none from to = reply (
      bad_request (text "invalid_transaction_id") (text "transaction id is not a valid UUID")
        (text "invalid transaction id"))
  transfer_audit_with (some id) from to =
      if not cfg.has_audit
      then reply (write 200 (audit_body []))
      else calling (on_pool (get_transaction_by_id env id))
          (transfer_found (λ tx. transfer_audit_between id (parse_audit_time_query form from to)))

  unfoldable pub get_transfer_audit_handler : Text → Text → Text → Handler D
  get_transfer_audit_handler id from to = transfer_audit_with (form.parse_uuid id) from to
