-- ===== src/Api/Routes.antt =====
-- The routes of cmd/server/main.go: which handler serves which request.
use payments_engine.Base.{Option, Text, text}
use payments_engine.Decimal.{Decimals}
use payments_engine.Api.Accounts.{
  CreateAccountRequest, create_account_handler, get_account_handler, update_account_status_handler,
  get_account_entries_handler, get_account_audit_handler,
}
use payments_engine.Api.Answer.{Formats, Handler}
use payments_engine.Api.Reports.{
  get_trial_balance_handler, get_clearing_health_handler, health_code,
}
use payments_engine.Api.Transfers.{
  CreateTransferRequest, create_transfer_handler, get_transfer_handler, get_transfer_audit_handler,
}
use payments_engine.Store.{Env}
use payments_engine.Transfer.Request.{Config}

-- A request whose method and path belong to a route under /api/v1, with what the handler reads of
-- it: the id in the path, the query parameters, the header, the decoded body.
pub data Route : Type 0 where
  post_account : Option CreateAccountRequest → Route
  get_account : Text → Route
  patch_account : Text → Option Text → Route
  get_account_entries : Text → Route
  get_account_audit : Text → Text → Text → Route
  post_transfer : Text → Option CreateTransferRequest → Route
  get_transfer : Text → Route
  get_transaction_audit : Text → Text → Text → Route
  get_trial_balance : Text → Route
  get_clearing_health : Route

-- What the process was started with, and what a request's context holds: the settings of the transfer
-- service, the variable CLEARING_ACCOUNT_CODE, the trace id, and the beginning of a new UUID.
pub record Server : Type 0 where
  pub config : Config
  pub clearing_code_var : Text
  pub trace_id : Text
  pub code_suffix : Text

unfoldable pub serve : {D : Type 0} ⦃o : Decimals D⦄ → Formats → Env → Server → Route → Handler D
unfolding create_account_handler get_account_handler update_account_status_handler
    get_account_entries_handler get_account_audit_handler create_transfer_handler
    get_transfer_handler get_transfer_audit_handler get_trial_balance_handler
    get_clearing_health_handler
serve form env srv (post_account body) =
    create_account_handler form env srv.config.has_audit (text "POST") srv.code_suffix body
serve form env srv (get_account id) = get_account_handler form env srv.config.has_audit id
serve form env srv (patch_account id body) =
    update_account_status_handler form env srv.config.has_audit id body
serve form env srv (get_account_entries id) =
    get_account_entries_handler form env srv.config.has_audit id
serve form env srv (get_account_audit id from to) =
    get_account_audit_handler form env srv.config.has_audit id from to
serve form env srv (post_transfer header body) =
    create_transfer_handler form env srv.config srv.trace_id header body
serve form env srv (get_transfer id) = get_transfer_handler form env srv.config id
serve form env srv (get_transaction_audit id from to) =
    get_transfer_audit_handler form env srv.config id from to
serve form env srv (get_trial_balance currency) =
    get_trial_balance_handler form env (text "GET") currency
serve form env srv get_clearing_health =
    get_clearing_health_handler form env (health_code srv.clearing_code_var) (text "GET")
