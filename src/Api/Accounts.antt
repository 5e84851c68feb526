-- ===== src/Api/Accounts.antt =====
-- api/handler/account_handler.go.
use payments_engine.Base.{
  ℕ, Bool, true, not, List, [], Option, none, some, Text, text, ◌==◌, text_eq, map, if◌then◌else◌,
}
use payments_engine.Base.Strings.{trim_space, to_upper}
use payments_engine.Error.{
  Result, ok, err, is_error, account_not_found, ledger_account_not_found, invalid_status_transition,
}
use payments_engine.Decimal.{Decimals}
use payments_engine.Account.{
  Account, AccountType, AccountStatus, active, frozen, closed, asset, liability, equity, income,
  expense,
}
use payments_engine.Accounts.Service.{create_account, get_account_by_id, update_account_status}
use payments_engine.Api.Answer.{
  Formats, said, message_of, Answer, account_body, entries_body, audit_body, Handler, write, refuse,
  reply, calling, account_response, entry_response, audit_response,
}
use payments_engine.Api.AuditQuery.{parse_audit_time_query}
use payments_engine.Audit.{AuditEvent, account}
use payments_engine.AuditLog.{get_by_entity_range}
use payments_engine.Ledger.Reports.{AccountEntryRow, get_account_entries}
use payments_engine.Store.{Env}
use payments_engine.World.{on_pool}

pub record CreateAccountRequest : Type 0 where
  pub name : Text
  pub type : Text
  pub currency : Text

-- account.AccountType(s): a string as the type of its constants
abbrev pub account_type : Text → AccountType
account_type s =
    if s == text "ASSET"
    then asset
    else if s == text "LIABILITY"
    then liability
    else if s == text "EQUITY"
    then equity
    else if s == text "INCOME"
    then income
    else if s == text "EXPENSE"
    then expense
    else AccountType.other s

-- the switch of UpdateAccountStatus over the strings that it takes
abbrev pub known_status : Text → Option AccountStatus
known_status s =
    if s == text "ACTIVE"
    then some active
    else if s == text "FROZEN"
    then some frozen
    else if s == text "CLOSED"
    then some closed
    else none

module _ {D : Type 0} where
  abbrev pub internal_error : Text → Answer D
  internal_error detail =
      refuse 500 (text "internal_error") (said detail) (said (text "internal server error"))

  abbrev pub bad_request : Text → Text → Text → Answer D
  bad_request code detail shown = refuse 400 code (said detail) (said shown)

  abbrev pub account_missing : Answer D
  account_missing =
      refuse 404 (text "account_not_found") (said (text "account was not found for provided id"))
        (said (text "account not found"))

  abbrev pub invalid_account_id : Answer D
  invalid_account_id =
      bad_request (text "invalid_account_id") (text "account id is not a valid UUID")
        (text "invalid account id")

  abbrev pub invalid_json : Answer D
  invalid_json =
      bad_request (text "invalid_json") (text "request body is not valid JSON")
        (text "invalid JSON body")

-- The service behind the handlers: the environment, whether there is an audit logger, and the
-- beginning of the UUID in a new account's code.
module _ {D : Type 0} ⦃o : Decimals D⦄ (form : Formats) (env : Env) (audited : Bool) where
  abbrev pub created_answer : Result (Account D) → Handler D
  created_answer (err e) = reply (refuse 400 (text "invalid_request") (message_of e) (message_of e))
  created_answer (ok acc) = reply (write 201 (account_body (account_response form acc)))

  -- `body` is the decoded JSON, if it is one
  abbrev pub create_account_decoded : Text → Option CreateAccountRequest → Handler D
  create_account_decoded suffix none = reply invalid_json
  create_account_decoded suffix (some req) =
      calling
        (create_account env audited suffix (record {
          name = req.name;
          type = account_type (to_upper (trim_space req.type));
          currency = to_upper (trim_space req.currency);
        }))
        created_answer

  unfoldable pub create_account_handler : Text → Text → Option CreateAccountRequest → Handler D
  create_account_handler method suffix body =
      if not (method == text "POST")
      then reply (
          refuse 405 (text "method_not_allowed")
            (said (text "only POST is supported for this endpoint"))
            (said (text "method not allowed")))
      else create_account_decoded suffix body

  abbrev pub found_answer : Result (Account D) → Handler D
  found_answer (ok acc) = reply (write 200 (account_body (account_response form acc)))
  found_answer (err e) =
      if is_error e account_not_found
      then reply account_missing
      else reply (internal_error (text "failed to load account by id"))

  abbrev pub get_account_with : Option ℕ → Handler D
  get_account_with none = reply invalid_account_id
  get_account_with (some id) = calling (on_pool (get_account_by_id env id)) found_answer

  unfoldable pub get_account_handler : Text → Handler D
  get_account_handler id = get_account_with (form.parse_uuid id)

  abbrev pub updated_answer : Result (Account D) → Handler D
  updated_answer (ok acc) = reply (write 200 (account_body (account_response form acc)))
  updated_answer (err e) =
      if is_error e account_not_found
      then reply account_missing
      else if is_error e invalid_status_transition
      then reply (refuse 400 (text "invalid_status_transition") (message_of e) (message_of e))
      else reply (internal_error (text "failed to update account status"))

  abbrev pub update_status_to : ℕ → Option AccountStatus → Handler D
  update_status_to id none = reply (
      bad_request (text "invalid_status") (text "status must be one of ACTIVE, FROZEN, CLOSED")
        (text "status must be one of ACTIVE, FROZEN, CLOSED"))
  update_status_to id (some status) =
      calling (update_account_status env audited id status) updated_answer

  abbrev pub update_status_decoded : ℕ → Option Text → Handler D
  update_status_decoded id none = reply invalid_json
  update_status_decoded id (some status) =
      update_status_to id (known_status (to_upper (trim_space status)))

  abbrev pub update_status_with : Option ℕ → Option Text → Handler D
  update_status_with none body = reply invalid_account_id
  update_status_with (some id) body = update_status_decoded id body

  unfoldable pub update_account_status_handler : Text → Option Text → Handler D
  update_account_status_handler id body = update_status_with (form.parse_uuid id) body

  abbrev pub entries_answer : Result (List (AccountEntryRow D)) → Handler D
  entries_answer (ok rows) = reply (write 200 (entries_body (map (entry_response form) rows)))
  entries_answer (err e) =
      if is_error e ledger_account_not_found
      then reply account_missing
      else reply (internal_error (text "failed to load ledger entries for account"))

  abbrev pub get_entries_with : Option ℕ → Handler D
  get_entries_with none = reply invalid_account_id
  get_entries_with (some id) = calling (on_pool (get_account_entries env true id)) entries_answer

  unfoldable pub get_account_entries_handler : Text → Handler D
  get_account_entries_handler id = get_entries_with (form.parse_uuid id)

  abbrev pub account_audit_answer : Result (List (AuditEvent D)) → Handler D
  account_audit_answer (ok events) =
      reply (write 200 (audit_body (map (audit_response form) events)))
  account_audit_answer (err e) =
      reply (internal_error (text "failed to load audit log for account"))

  abbrev pub account_audit_between : ℕ → Result (Option ℕ × Option ℕ) → Handler D
  account_audit_between id (err e) =
      reply (refuse 400 (text "invalid_query") (message_of e) (message_of e))
  account_audit_between id (ok (from, to)) =
      calling (get_by_entity_range env account id from to) account_audit_answer

  abbrev pub account_audit_with : Option ℕ → Text → Text → Handler D
  account_audit_with none from to = reply invalid_account_id
  account_audit_with (some id) from to =
      if not audited
      then reply (write 200 (audit_body []))
      else account_audit_between id (parse_audit_time_query form from to)

  -- `from` and `to` are the query parameters, empty where they are not given
  unfoldable pub get_account_audit_handler : Text → Text → Text → Handler D
  get_account_audit_handler id from to = account_audit_with (form.parse_uuid id) from to
