-- ===== src/Accounts/Service.antt =====
-- internal/account/service.go and internal/account/repository.go.
use payments_engine.Base.{
  ℕ, suc, Bool, true, false, not, ◌&&◌, ◌||◌, Option, none, some, List, [], ◌∷◌, ◌++◌, Text, text,
  ◌==◌, nat_eq, text_eq, ltb, contains, if◌then◌else◌, leb, length,
}
use payments_engine.Base.Strings.{trim_space, to_upper}
use payments_engine.Error.{
  Error, sentinel, message, driver, wrap, account_not_found, invalid_status_transition, Result, ok,
  err,
}
use payments_engine.Decimal.{Decimals}
use payments_engine.Exec.{Exec, pure, raise, lift, within, try, ◌>>=◌, ◌>>◌}
use payments_engine.Account.{
  Account, AccountType, AccountStatus, active, frozen, closed, status_beq,
}
use payments_engine.Audit.{
  EventType, account_created, account_frozen, account_unfrozen, account_closed, account,
  EventPayload, account_opened, status_changed,
}
use payments_engine.Ledger.Repository.{find_account}
use payments_engine.Store.{Env, Session, statement, query}
use payments_engine.Store.Tables.{Db}
use payments_engine.Transaction.Repository.{or_no_rows, explain, exists, find_by_code}
use payments_engine.World.{World, on_pool, log_event}

pub record CreateAccountInput : Type 0 where
  pub name : Text
  pub type : AccountType
  pub currency : Text

-- the loop over the letters
abbrev pub all_upper : Text → Bool
all_upper [] = true
all_upper (r ∷ rest) = if ltb r 65 || ltb 90 r then false else all_upper rest

abbrev pub known_currencies : List Text
known_currencies =
    text "USD"
    ∷ text "EUR"
    ∷ text "GBP"
    ∷ text "NGN"
    ∷ text "KES"
    ∷ text "ZAR"
    ∷ text "GHS"
    ∷ text "JPY"
    ∷ text "CAD"
    ∷ text "AUD"
    ∷ []

unfoldable pub is_valid_iso4217_currency : Text → Bool
is_valid_iso4217_currency code =
    if not (all_upper code) then false else contains code known_currencies

abbrev pub is_valid_account_type : AccountType → Bool
is_valid_account_type (AccountType.other _) = false
is_valid_account_type _ = true

-- [A-Z0-9]
abbrev pub is_plain : ℕ → Bool
is_plain r = not (ltb r 48 || ltb 57 r) || not (ltb r 65 || ltb 90 r)

-- each run of other characters is one `_`; `inside` is whether such a run has begun
abbrev pub squash : Bool → Text → Text
squash inside [] = []
squash inside (r ∷ rest) =
    if is_plain r
    then r ∷ squash false rest
    else if inside
    then squash true rest
    else 95 ∷ squash true rest

abbrev pub trim_first : Text → Text
trim_first [] = []
trim_first (r ∷ rest) = if r == 95 then rest else r ∷ rest

abbrev pub trim_last : Text → Text
trim_last [] = []
trim_last (r ∷ []) = if r == 95 then [] else r ∷ []
trim_last (r ∷ s ∷ rest) = r ∷ trim_last (s ∷ rest)

-- generateAccountCode; `suffix` is the beginning of a new UUID
abbrev pub generate_account_code : Text → Text → Text
generate_account_code suffix name =
    let base = trim_last (trim_first (squash false (to_upper (trim_space name)))) in
    (if base == [] then text "ACCOUNT" else base) ++ (95 ∷ suffix)

-- the guards of UpdateAccountStatus
unfoldable pub check_transition : AccountStatus → AccountStatus → Result (Unit {0})
check_transition current next =
    if status_beq current next
    then err (wrap (text "account is already in this status") (sentinel invalid_status_transition))
    else if status_beq current closed
    then err
        (wrap (text "closed accounts cannot be transitioned") (sentinel invalid_status_transition))
    else if status_beq current frozen
        && (not (status_beq next active) && not (status_beq next closed))
    then err (
        wrap (text "frozen accounts can only be unfrozen or closed")
          (sentinel invalid_status_transition))
    else ok tt

abbrev pub status_event : AccountStatus → EventType
status_event frozen = account_frozen
status_event closed = account_closed
status_event _ = account_unfrozen

-- the values of the enumeration account_status
abbrev pub is_enum : AccountStatus → Bool
is_enum (AccountStatus.other _) = false
is_enum _ = true

module _ {D : Type 0} where
  abbrev pub restate : ℕ → AccountStatus → Account D → Account D
  restate id status a =
      if id == a.id then record a { status = status; version = suc a.version } else a

  abbrev pub restate_all : ℕ → AccountStatus → List (Account D) → List (Account D)
  restate_all id status [] = []
  restate_all id status (a ∷ rest) = restate id status a ∷ restate_all id status rest

  -- UPDATE accounts SET status = $2, version = version + 1 WHERE id = $1 RETURNING ...
  abbrev pub store_status : ℕ → AccountStatus → ℕ → Db D → Result (Account D) × Db D
  store_status id status n db =
      if is_enum status
      then (
        or_no_rows (find_account id (restate_all id status db.accounts)),
        record db { accounts = restate_all id status db.accounts },
      )
      else (err (driver n), db)

  module _ (env : Env) where
    unfoldable pub get_account_by_id : ℕ → Exec (Session D) (Account D)
    get_account_by_id id = do
      r ← try (query env (λ db. or_no_rows (find_account id db.accounts)))
      lift (explain (sentinel account_not_found) (text "get account") r)

    unfoldable pub store_account_status : ℕ → AccountStatus → Exec (Session D) (Account D)
    store_account_status id status = do
      r ← try (statement env (store_status id status))
      lift (explain (sentinel account_not_found) (text "update account status") r)

    unfoldable pub log_account : Bool → ℕ → EventType → EventPayload D → Exec (World D) (Unit {0})
    log_account audited id event payload =
        if not audited
        then pure tt
        else (try (
              log_event env (record {
                id = 0;
                entity_type = account;
                entity_id = id;
                event_type = event;
                actor = text "account-service";
                payload = payload;
                occurred_at = 0;
              }))
            >> pure tt)

    unfoldable pub update_account_status : Bool → ℕ → AccountStatus → Exec (World D) (Account D)
    update_account_status audited id next = do
      current ← on_pool (get_account_by_id id)
      lift (check_transition current.status next)
      updated ← on_pool (store_account_status id next)
      log_account audited id (status_event next) (status_changed current.status next)
      pure updated

module _ {D : Type 0} ⦃o : Decimals D⦄ where
  -- INSERT INTO accounts: the enumeration of the classes, the currency's CHAR(3), the primary key and the unique code
  abbrev pub account_error : ℕ → ℕ → Account D → Db D → Option Error
  account_error n id a db =
      if not (is_valid_account_type a.type)
        || not (is_enum a.status)
        || not (leb (length a.currency) 3)
      then some (driver n)
      else if exists (find_account id db.accounts) || exists (find_by_code a.code db.accounts)
      then some (driver n)
      else none

  abbrev pub opened_row : Env → ℕ → Account D → Account D
  opened_row env n a = record a { id = env.fresh n; balance = o.column a.balance; version = 0 }

  abbrev pub insert_account : Env → Account D → ℕ → Db D → Result (Account D) × Db D
  insert_account env a n db = elim (account_error n (env.fresh n) a db) [
    | none ↦ (ok (opened_row env n a), record db { accounts = opened_row env n a ∷ db.accounts })
    | some e ↦ (err e, db)
  ]

  -- AccountRepository.CreateAccount, where the account has a status
  unfoldable pub store_account : Env → Account D → Exec (Session D) (Account D)
  store_account env a =
      if a.name == []
      then raise (message (text "account name is required"))
      else within (text "create account") (statement env (insert_account env a))

  abbrev pub new_account : Text → CreateAccountInput → Account D
  new_account suffix input = record {
    id = 0;
    code = generate_account_code suffix (trim_space input.name);
    name = trim_space input.name;
    type = input.type;
    currency = input.currency;
    balance = o.zero_value;
    status = active;
    version = 0;
    parent_id = none;
    is_posting = true;
  }

  unfoldable pub create_account :
      Env → Bool → Text → CreateAccountInput → Exec (World D) (Account D)
  create_account env audited suffix input = do
    lift (if trim_space input.name == [] then err (message (text "name is required")) else ok tt)
    lift (
        if not (is_valid_account_type input.type)
        then err (message (text "invalid account type"))
        else ok tt)
    lift (
        if not (is_valid_iso4217_currency input.currency)
        then err (message (text "invalid currency code"))
        else ok tt)
    created ← on_pool (store_account env (new_account suffix input))
    log_account env audited created.id account_created (account_opened created)
    pure created
