-- ===== src/Api/Explained/Accounts.antt =====
-- The answers of the account handlers are explained.
use payments_engine.Base.{ℕ, Bool, List, Option, none, some, Text, text_eq}
use payments_engine.Error.{Result, ok, err}
use payments_engine.Decimal.{Decimals}
use payments_engine.Account.{Account, AccountStatus}
use payments_engine.Api.Accounts.{
  CreateAccountRequest, create_account_handler, created_answer, found_answer, get_account_with,
  updated_answer, update_status_to, update_status_with, entries_answer, get_entries_with,
  account_audit_answer, account_audit_between, account_audit_with,
}
use payments_engine.Api.Answer.{Formats}
use payments_engine.Audit.{AuditEvent}
use payments_engine.Ledger.Reports.{AccountEntryRow}
use payments_engine.Store.{Env}
use payments_engine.Api.Explained.{Explains, explained}

module _ {D : Type 0} ⦃o : Decimals D⦄ (form : Formats) (env : Env) (audited : Bool) where
  created-Explains : (r : Result (Account D)) → Explains (created_answer form env audited r)
  created-Explains (ok acc) = search explained
  created-Explains (err e) = search explained

  pub create_account-Explains :
      (method suffix : Text) (body : Option CreateAccountRequest)
      → Explains (create_account_handler {D = D} form env audited method suffix body)
  unfolding create_account_handler
  create_account-Explains method suffix none = search explained
  create_account-Explains method suffix (some req) = search (explained, created-Explains)

  found-Explains : (r : Result (Account D)) → Explains (found_answer form env audited r)
  found-Explains (ok acc) = search explained
  found-Explains (err e) = search explained

  pub with_account-Explains :
      (id : Option ℕ) → Explains (get_account_with {D = D} form env audited id)
  with_account-Explains none = search explained
  with_account-Explains (some id) = search (explained, found-Explains)

  updated-Explains : (r : Result (Account D)) → Explains (updated_answer form env audited r)
  updated-Explains (ok acc) = search explained
  updated-Explains (err e) = search explained

  status_to-Explains :
      (id : ℕ) (status : Option AccountStatus)
      → Explains (update_status_to {D = D} form env audited id status)
  status_to-Explains id none = search explained
  status_to-Explains id (some status) = search (explained, updated-Explains)

  pub status_with-Explains :
      (id : Option ℕ) (body : Option Text)
      → Explains (update_status_with {D = D} form env audited id body)
  status_with-Explains none body = search explained
  status_with-Explains (some id) none = search explained
  status_with-Explains (some id) (some status) = search (status_to-Explains)

  entries-Explains :
      (r : Result (List (AccountEntryRow D))) → Explains (entries_answer form env audited r)
  entries-Explains (ok rows) = search explained
  entries-Explains (err e) = search explained

  pub with_entries-Explains :
      (id : Option ℕ) → Explains (get_entries_with {D = D} form env audited id)
  with_entries-Explains none = search explained
  with_entries-Explains (some id) = search (explained, entries-Explains)

  trail-Explains :
      (r : Result (List (AuditEvent D))) → Explains (account_audit_answer form env audited r)
  trail-Explains (ok events) = search explained
  trail-Explains (err e) = search explained

  between-Explains :
      (id : ℕ) (r : Result (Option ℕ × Option ℕ))
      → Explains (account_audit_between {D = D} form env audited id r)
  between-Explains id (ok (from, to)) = search (explained, trail-Explains)
  between-Explains id (err e) = search explained

  pub with_audit-Explains :
      (id : Option ℕ) (from to : Text)
      → Explains (account_audit_with {D = D} form env audited id from to)
  with_audit-Explains none from to = search explained
  with_audit-Explains (some id) from to = search (explained, between-Explains)
