-- ===== src/Api/Explained/Transfers.antt =====
-- The answers of the transfer handlers are explained.
use payments_engine.Base.{ℕ, List, Option, none, some, Text, text_eq}
use payments_engine.Error.{Result, ok, err}
use payments_engine.Decimal.{Decimals}
use payments_engine.Api.Answer.{Formats, Handler}
use payments_engine.Api.Transfers.{
  CreateTransferRequest, create_transfer_handler, transferred_answer, transfer_amount, transfer_to,
  transfer_from, transfer_decoded, transfer_found, get_transfer_with, transfer_audit_answer,
  transfer_audit_between, transfer_audit_with,
}
use payments_engine.Audit.{AuditEvent}
use payments_engine.Store.{Env}
use payments_engine.Transaction.Status.{Transaction}
use payments_engine.Transfer.Request.{Config}
use payments_engine.Api.Explained.{
  Explains, Explains-reply, explained, write_transfer_error-IsExplained,
}

module _ {D : Type 0} ⦃o : Decimals D⦄ (form : Formats) (env : Env) (cfg : Config) where
  transferred-Explains : (r : Result (Transaction D)) → Explains (transferred_answer form env cfg r)
  transferred-Explains (ok tx) = search explained
  transferred-Explains (err e) = Explains-reply _ (write_transfer_error-IsExplained e)

  amount-Explains :
      (trace key : Text) (req : CreateTransferRequest) (from_id to_id : ℕ) (amount : Option D)
      → Explains (transfer_amount form env cfg trace key req from_id to_id amount)
  amount-Explains trace key req from_id to_id none = search explained
  amount-Explains trace key req from_id to_id (some amount) =
      search (explained, transferred-Explains)

  to-Explains :
      (trace key : Text) (req : CreateTransferRequest) (from_id : ℕ) (to_id : Option ℕ)
      → Explains (transfer_to {D = D} form env cfg trace key req from_id to_id)
  to-Explains trace key req from_id none = search explained
  to-Explains trace key req from_id (some to_id) = search (amount-Explains)

  from-Explains :
      (trace key : Text) (req : CreateTransferRequest) (from_id : Option ℕ)
      → Explains (transfer_from {D = D} form env cfg trace key req from_id)
  from-Explains trace key req none = search explained
  from-Explains trace key req (some from_id) = search (to-Explains)

  decoded-Explains :
      (trace key : Text) (body : Option CreateTransferRequest)
      → Explains (transfer_decoded {D = D} form env cfg trace key body)
  decoded-Explains trace key none = search explained
  decoded-Explains trace key (some req) = search (from-Explains)

  pub create_transfer-Explains :
      (trace header : Text) (body : Option CreateTransferRequest)
      → Explains (create_transfer_handler {D = D} form env cfg trace header body)
  unfolding create_transfer_handler
  create_transfer-Explains trace header body = search (explained, decoded-Explains)

  transfer_found-Explains :
      (found : Transaction D → Handler D) (r : Result (Transaction D))
      → ((tx : Transaction D) → Explains (found tx))
      → Explains (transfer_found form env cfg found r)
  transfer_found-Explains found (ok tx) k = k tx
  transfer_found-Explains found (err e) k = search explained

  pub with_transfer-Explains :
      (id : Option ℕ) → Explains (get_transfer_with {D = D} form env cfg id)
  with_transfer-Explains none = search explained
  with_transfer-Explains (some id) = search (explained, transfer_found-Explains)

  transfer_trail-Explains :
      (r : Result (List (AuditEvent D))) → Explains (transfer_audit_answer form env cfg r)
  transfer_trail-Explains (ok events) = search explained
  transfer_trail-Explains (err e) = search explained

  transfer_between-Explains :
      (id : ℕ) (r : Result (Option ℕ × Option ℕ))
      → Explains (transfer_audit_between {D = D} form env cfg id r)
  transfer_between-Explains id (ok (from, to)) = search (explained, transfer_trail-Explains)
  transfer_between-Explains id (err e) = search explained

  pub transfer_audit-Explains :
      (id : Option ℕ) (from to : Text)
      → Explains (transfer_audit_with {D = D} form env cfg id from to)
  transfer_audit-Explains none from to = search explained
  transfer_audit-Explains (some id) from to =
      search (explained, transfer_found-Explains, transfer_between-Explains)
