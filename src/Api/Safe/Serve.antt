-- ===== src/Api/Safe/Serve.antt =====
-- The handlers of the GET routes only read.
use payments_engine.Base.{ℕ, Bool, true, List, Option, none, some, Text, ◌≡◌, text_eq}
use payments_engine.Error.{Result, ok, err}
use payments_engine.Decimal.{Decimals}
use payments_engine.Account.{Account}
use payments_engine.Api.Accounts.{
  get_account_handler, get_account_entries_handler, get_account_audit_handler, found_answer,
  get_account_with, entries_answer, get_entries_with, account_audit_answer, account_audit_between,
  account_audit_with,
}
use payments_engine.Api.Answer.{Formats, Handler}
use payments_engine.Api.Reports.{
  parse_required_currency_query, trial_answer, trial_for, health_answer, health_code,
  get_trial_balance_handler, get_clearing_health_handler,
}
use payments_engine.Api.Routes.{
  Route, Server, serve, post_account, get_account, patch_account, get_account_entries,
  get_account_audit, post_transfer, get_transfer, get_transaction_audit, get_trial_balance,
  get_clearing_health,
}
use payments_engine.Api.Transfers.{
  get_transfer_handler, get_transfer_audit_handler, transfer_found, get_transfer_with,
  transfer_audit_answer, transfer_audit_between, transfer_audit_with,
}
use payments_engine.Audit.{AuditEvent}
use payments_engine.Ledger.Reports.{AccountEntryRow}
use payments_engine.Ledger.TrialBalance.{TrialBalance}
use payments_engine.Store.{Env}
use payments_engine.Transaction.Repository.{get_account_by_code}
use payments_engine.Transaction.Status.{Transaction}
use payments_engine.Transfer.Request.{Config}
use payments_engine.World.{World, on_pool}
use payments_engine.Api.Safe.{
  IsUnchanged, Reads-on_pool, Shows, Shows-calling, account_by_code-Same, account_by_id-Same,
  by_entity-Reads, entries-Same, is_get, shows, transaction_by_id-Same, trial-Same,
}

module _ {D : Type 0} ⦃o : Decimals D⦄ (form : Formats) (env : Env) (audited : Bool) where
  found-Shows : (r : Result (Account D)) → Shows (found_answer form env audited r)
  found-Shows (ok acc) = search shows
  found-Shows (err e) = search shows

  with_account-Shows : (id : Option ℕ) → Shows (get_account_with {D = D} form env audited id)
  with_account-Shows none = search shows
  with_account-Shows (some id) = search (shows, account_by_id-Same, found-Shows)

  entries-Shows :
      (r : Result (List (AccountEntryRow D))) → Shows (entries_answer form env audited r)
  entries-Shows (ok rows) = search shows
  entries-Shows (err e) = search shows

  with_entries-Shows : (id : Option ℕ) → Shows (get_entries_with {D = D} form env audited id)
  with_entries-Shows none = search shows
  with_entries-Shows (some id) = search (shows, entries-Same, entries-Shows)

  trail-Shows : (r : Result (List (AuditEvent D))) → Shows (account_audit_answer form env audited r)
  trail-Shows (ok events) = search shows
  trail-Shows (err e) = search shows

  between-Shows :
      (id : ℕ) (r : Result (Option ℕ × Option ℕ))
      → Shows (account_audit_between {D = D} form env audited id r)
  between-Shows id (ok (from, to)) = search (shows, by_entity-Reads, trail-Shows)
  between-Shows id (err e) = search shows

  with_audit-Shows :
      (id : Option ℕ) (from to : Text)
      → Shows (account_audit_with {D = D} form env audited id from to)
  with_audit-Shows none from to = search shows
  with_audit-Shows (some id) from to = search (shows, between-Shows)

module _ {D : Type 0} ⦃o : Decimals D⦄ (form : Formats) (env : Env) (cfg : Config) where
  transfer_found-Shows :
      (found : Transaction D → Handler D) (r : Result (Transaction D))
      → ((tx : Transaction D) → Shows (found tx))
      → Shows (transfer_found form env cfg found r)
  transfer_found-Shows found (ok tx) k = k tx
  transfer_found-Shows found (err e) k = search shows

  with_transfer-Shows : (id : Option ℕ) → Shows (get_transfer_with {D = D} form env cfg id)
  with_transfer-Shows none = search shows
  with_transfer-Shows (some id) = search (shows, transaction_by_id-Same, transfer_found-Shows)

  transfer_trail-Shows :
      (r : Result (List (AuditEvent D))) → Shows (transfer_audit_answer form env cfg r)
  transfer_trail-Shows (ok events) = search shows
  transfer_trail-Shows (err e) = search shows

  transfer_between-Shows :
      (id : ℕ) (r : Result (Option ℕ × Option ℕ))
      → Shows (transfer_audit_between {D = D} form env cfg id r)
  transfer_between-Shows id (ok (from, to)) = search (shows, by_entity-Reads, transfer_trail-Shows)
  transfer_between-Shows id (err e) = search shows

  transfer_audit-Shows :
      (id : Option ℕ) (from to : Text) → Shows (transfer_audit_with {D = D} form env cfg id from to)
  transfer_audit-Shows none from to = search shows
  transfer_audit-Shows (some id) from to =
      search (shows, transaction_by_id-Same, transfer_found-Shows, transfer_between-Shows)

module _ {D : Type 0} ⦃o : Decimals D⦄ (form : Formats) (env : Env) where
  trial-Shows : (r : Result (TrialBalance D)) → Shows (trial_answer form env r)
  trial-Shows (ok tb) = search shows
  trial-Shows (err e) = search shows

  trial_for-Shows : (r : Result Text) → Shows (trial_for {D = D} form env r)
  trial_for-Shows (ok currency) = search (shows, trial-Same, trial-Shows)
  trial_for-Shows (err e) = search shows

  health-Shows : (code : Text) (r : Result (Account D)) → Shows (health_answer form env code r)
  health-Shows code (ok acc) = search shows
  health-Shows code (err e) = search shows

  -- No GET request changes the tables, the open transaction, the idempotency keys or the audit trail,
  -- whatever it answers and whatever fails behind it.
  pub serve_get-IsUnchanged :
      (srv : Server) (route : Route) (w : World D)
      → is_get route ≡ true
      → IsUnchanged w (serve form env srv route w).1
  unfolding serve get_account_handler get_account_entries_handler get_account_audit_handler
      get_transfer_handler get_transfer_audit_handler get_trial_balance_handler
      get_clearing_health_handler
  serve_get-IsUnchanged srv (post_account body) w h = absurd (cc)
  serve_get-IsUnchanged srv (get_account id) w h =
      (with_account-Shows form env srv.config.has_audit (form.parse_uuid id)).shows w
  serve_get-IsUnchanged srv (patch_account id body) w h = absurd (cc)
  serve_get-IsUnchanged srv (get_account_entries id) w h =
      (with_entries-Shows form env srv.config.has_audit (form.parse_uuid id)).shows w
  serve_get-IsUnchanged srv (get_account_audit id from to) w h =
      (with_audit-Shows form env srv.config.has_audit (form.parse_uuid id) from to).shows w
  serve_get-IsUnchanged srv (post_transfer header body) w h = absurd (cc)
  serve_get-IsUnchanged srv (get_transfer id) w h =
      (with_transfer-Shows form env srv.config (form.parse_uuid id)).shows w
  serve_get-IsUnchanged srv (get_transaction_audit id from to) w h =
      (transfer_audit-Shows form env srv.config (form.parse_uuid id) from to).shows w
  serve_get-IsUnchanged srv (get_trial_balance currency) w h =
      (trial_for-Shows (parse_required_currency_query currency)).shows w
  serve_get-IsUnchanged srv get_clearing_health w h =
      (Shows-calling (on_pool (get_account_by_code env (health_code srv.clearing_code_var))) _
          (Reads-on_pool _ (account_by_code-Same env (health_code srv.clearing_code_var)))
          (health-Shows (health_code srv.clearing_code_var))).shows
        w
