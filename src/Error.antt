-- ===== src/Error.antt =====
-- Go's errors: the sentinel values that the packages declare, other messages, errors of the
-- database driver, and wrapping by `%w`, which `errors.Is` sees through.
use payments_engine.Base.{ℕ, Bool, false, Text, nat_beq}

pub data Sentinel : Type 0 where
  unbalanced_entry entries_query_not_supported trial_balance_query_not_supported : Sentinel
  ledger_account_not_found account_not_active ledger_currency_mismatch : Sentinel
  ledger_insufficient_funds : Sentinel
  invalid_transfer insufficient_funds currency_mismatch clearing_account_not_found : Sentinel
  transfer_in_progress : Sentinel
  transaction_not_found invalid_status_update snapshot_not_found : Sentinel
  duplicate_idempotency_key unknown_status : Sentinel
  account_not_found invalid_status_transition key_not_found no_rows : Sentinel

abbrev pub sentinel_code : Sentinel → ℕ
sentinel_code unbalanced_entry = 0
sentinel_code entries_query_not_supported = 1
sentinel_code trial_balance_query_not_supported = 2
sentinel_code ledger_account_not_found = 3
sentinel_code account_not_active = 4
sentinel_code ledger_currency_mismatch = 5
sentinel_code ledger_insufficient_funds = 6
sentinel_code invalid_transfer = 7
sentinel_code insufficient_funds = 8
sentinel_code currency_mismatch = 9
sentinel_code clearing_account_not_found = 10
sentinel_code transfer_in_progress = 11
sentinel_code transaction_not_found = 12
sentinel_code invalid_status_update = 13
sentinel_code snapshot_not_found = 14
sentinel_code duplicate_idempotency_key = 15
sentinel_code unknown_status = 16
sentinel_code account_not_found = 17
sentinel_code invalid_status_transition = 18
sentinel_code key_not_found = 19
sentinel_code no_rows = 20

pub data Error : Type 0 where
  sentinel : Sentinel → Error
  message : Text → Error
  driver : ℕ → Error
  wrap : Text → Error → Error
  also : Error → Error → Error

-- errors.Is(err, target); of `also e f` only `e` is wrapped.
abbrev pub is_error : Error → Sentinel → Bool
is_error (sentinel s) t = nat_beq (sentinel_code s) (sentinel_code t)
is_error (message _) t = false
is_error (driver _) t = false
is_error (wrap _ e) t = is_error e t
is_error (also e _) t = is_error e t

pub data Result {ℓ} (A : Type ℓ) : Type ℓ where
  ok : A → Result A
  err : Error → Result A

-- `if err != nil { return fmt.Errorf(context, err) }`
abbrev pub explained {ℓ} : {A : Type ℓ} → Text → Result A → Result A
explained context (ok a) = ok a
explained context (err e) = err (wrap context e)
