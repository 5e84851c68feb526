-- ===== src/Api/Reports.antt =====
-- api/handler/ledger_handler.go and api/handler/health_handler.go.
use payments_engine.Base.{
  Bool, true, false, not, ◌||◌, [], ◌∷◌, Text, text, ◌==◌, nat_eq, text_eq, map, ltb, length,
  if◌then◌else◌,
}
use payments_engine.Base.Strings.{trim_space, to_upper}
use payments_engine.Error.{
  Error, message, Result, ok, err, is_error, snapshot_not_found, trial_balance_query_not_supported,
}
use payments_engine.Decimal.{Decimals}
use payments_engine.Account.{Account}
use payments_engine.Api.Accounts.{internal_error}
use payments_engine.Api.Answer.{
  Formats, said, message_of, Answer, trial_body, health_body, healthy, alert, Handler, write,
  failing, refuse, reply, calling, trial_row,
}
use payments_engine.Ledger.TrialBalance.{TrialBalance, get_trial_balance}
use payments_engine.Store.{Env}
use payments_engine.Transaction.Repository.{get_account_by_code}
use payments_engine.World.{on_pool}

-- the loop over the three letters
abbrev pub all_letters : Text → Bool
all_letters [] = true
all_letters (c ∷ cs) = if ltb c 65 || ltb 90 c then false else all_letters cs

abbrev pub iso_code_error : Error
iso_code_error = message (text "currency must be a 3-letter ISO code")

unfoldable pub parse_required_currency_query : Text → Result Text
parse_required_currency_query param =
    let raw = trim_space param in
    let c = to_upper raw in
    if raw == []
    then err (message (text "currency query parameter is required"))
    else if not (length c == 3)
    then err iso_code_error
    else if not (all_letters c)
    then err iso_code_error
    else ok c

-- DefaultClearingCode of internal/transaction/service.go
abbrev pub default_clearing_code : Text
default_clearing_code = text "GL_LIAB_CLEARING"

-- NewHealthHandler: the code that the variable gives, or the default
abbrev pub health_code : Text → Text
health_code var = let code = trim_space var in if code == [] then default_clearing_code else code

module _ {D : Type 0} where
  abbrev pub only_get : Answer D
  only_get =
      refuse 405 (text "method_not_allowed") (said (text "only GET is supported for this endpoint"))
        (said (text "method not allowed"))

module _ {D : Type 0} ⦃o : Decimals D⦄ (form : Formats) (env : Env) where
  abbrev pub trial_answer : Result (TrialBalance D) → Handler D
  trial_answer (err e) =
      if is_error e trial_balance_query_not_supported
      then reply (internal_error (text "trial balance is not available"))
      else reply (internal_error (text "failed to load trial balance"))
  trial_answer (ok tb) = reply (
      write 200 (
        trial_body (record {
          currency = tb.currency;
          rows = map (trial_row form) tb.rows;
          balanced = tb.balanced;
          net_total = o.string_fixed tb.net_total;
        })))

  abbrev pub trial_for : Result Text → Handler D
  trial_for (err e) = reply (refuse 400 (text "invalid_query") (message_of e) (message_of e))
  trial_for (ok currency) = calling (on_pool (get_trial_balance env true currency)) trial_answer

  unfoldable pub get_trial_balance_handler : Text → Text → Handler D
  get_trial_balance_handler method currency =
      if not (method == text "GET")
      then reply only_get
      else trial_for (parse_required_currency_query currency)

  -- GetClearingHealth; `code` is the code of the clearing account
  abbrev pub health_answer : Text → Result (Account D) → Handler D
  health_answer code (err e) =
      if is_error e snapshot_not_found
      then reply (
          failing 503 (text "clearing_account_not_found")
            (said (text "clearing account not found for configured code"))
            (health_body (record {
              status = alert;
              clearing_account_code = code;
              currency = [];
              balance = [];
              reason = text "clearing_account_not_found";
            })))
      else reply
          (refuse 500 (text "internal_error") (message_of e) (said (text "internal server error")))
  health_answer code (ok acc) =
      if o.is_zero acc.balance
      then reply (
          write 200 (
            health_body (record {
              status = healthy;
              clearing_account_code = code;
              currency = acc.currency;
              balance = o.string_fixed acc.balance;
              reason = [];
            })))
      else reply (
          failing 503 (text "clearing_invariant_violation")
            (said (text "clearing account balance is non-zero"))
            (health_body (record {
              status = alert;
              clearing_account_code = code;
              currency = acc.currency;
              balance = o.string_fixed acc.balance;
              reason = text "clearing_account_balance_non_zero";
            })))

  unfoldable pub get_clearing_health_handler : Text → Text → Handler D
  get_clearing_health_handler code method =
      if not (method == text "GET")
      then reply only_get
      else calling (on_pool (get_account_by_code env code)) (health_answer code)
