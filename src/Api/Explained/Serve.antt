-- ===== src/Api/Explained/Serve.antt =====
-- The answers of the server are explained, on every route.
use payments_engine.Base.{Text, text, text_eq}
use payments_engine.Error.{Result, ok, err}
use payments_engine.Decimal.{Decimals}
use payments_engine.Account.{Account}
use payments_engine.Api.Accounts.{
  get_account_handler, update_account_status_handler, get_account_entries_handler,
  get_account_audit_handler,
}
use payments_engine.Api.Answer.{Formats}
use payments_engine.Api.Reports.{
  parse_required_currency_query, trial_answer, trial_for, health_answer, health_code,
  get_trial_balance_handler, get_clearing_health_handler,
}
use payments_engine.Api.Routes.{
  Route, Server, serve, post_account, get_account, patch_account, get_account_entries,
  get_account_audit, post_transfer, get_transfer, get_transaction_audit, get_trial_balance,
  get_clearing_health,
}
use payments_engine.Api.Transfers.{get_transfer_handler, get_transfer_audit_handler}
use payments_engine.Ledger.TrialBalance.{TrialBalance}
use payments_engine.Store.{Env}
use payments_engine.Transaction.Repository.{get_account_by_code}
use payments_engine.World.{World, on_pool}
use payments_engine.Api.Explained.{Explains, Explains-calling, IsExplained, explained}
use payments_engine.Api.Explained.Accounts.{
  create_account-Explains, status_with-Explains, with_account-Explains, with_audit-Explains,
  with_entries-Explains,
}
use payments_engine.Api.Explained.Transfers.{
  create_transfer-Explains, transfer_audit-Explains, with_transfer-Explains,
}

module _ {D : Type 0} ⦃o : Decimals D⦄ (form : Formats) (env : Env) where
  trial-Explains : (r : Result (TrialBalance D)) → Explains (trial_answer form env r)
  trial-Explains (ok tb) = search explained
  trial-Explains (err e) = search explained

  trial_for-Explains : (r : Result Text) → Explains (trial_for {D = D} form env r)
  trial_for-Explains (ok currency) = search (explained, trial-Explains)
  trial_for-Explains (err e) = search explained

  health-Explains :
      (code : Text) (r : Result (Account D)) → Explains (health_answer form env code r)
  health-Explains code (ok acc) = search explained
  health-Explains code (err e) = search explained

  -- Every answer of the server, on every route and whatever fails behind it, has a status from 200 to
  -- 503; it leaves an error code for the request log exactly when its status is 400 or more.
  pub serve-IsExplained :
      (srv : Server) (route : Route) (w : World D) → IsExplained (serve form env srv route w).0
  unfolding serve get_account_handler update_account_status_handler get_account_entries_handler
      get_account_audit_handler get_transfer_handler get_transfer_audit_handler
      get_trial_balance_handler get_clearing_health_handler
  serve-IsExplained srv (post_account body) w =
      (create_account-Explains form env srv.config.has_audit (text "POST") srv.code_suffix
          body).explains
        w
  serve-IsExplained srv (get_account id) w =
      (with_account-Explains form env srv.config.has_audit (form.parse_uuid id)).explains w
  serve-IsExplained srv (patch_account id body) w =
      (status_with-Explains form env srv.config.has_audit (form.parse_uuid id) body).explains w
  serve-IsExplained srv (get_account_entries id) w =
      (with_entries-Explains form env srv.config.has_audit (form.parse_uuid id)).explains w
  serve-IsExplained srv (get_account_audit id from to) w =
      (with_audit-Explains form env srv.config.has_audit (form.parse_uuid id) from to).explains w
  serve-IsExplained srv (post_transfer header body) w =
      (create_transfer-Explains form env srv.config _ header body).explains w
  serve-IsExplained srv (get_transfer id) w =
      (with_transfer-Explains form env srv.config (form.parse_uuid id)).explains w
  serve-IsExplained srv (get_transaction_audit id from to) w =
      (transfer_audit-Explains form env srv.config (form.parse_uuid id) from to).explains w
  serve-IsExplained srv (get_trial_balance currency) w =
      (trial_for-Explains (parse_required_currency_query currency)).explains w
  serve-IsExplained srv get_clearing_health w =
      (Explains-calling (on_pool (get_account_by_code env (health_code srv.clearing_code_var))) _
          (health-Explains (health_code srv.clearing_code_var))).explains
        w
