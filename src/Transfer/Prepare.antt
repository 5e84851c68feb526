-- ===== src/Transfer/Prepare.antt =====
-- The first half of Transfer: what it reads and checks before it writes, and the row that it
-- creates.
use payments_engine.Base.{Bool, true, false, not, ◌||◌, none, text, text_eq, if◌then◌else◌}
use payments_engine.Error.{
  sentinel, wrap, explained, is_error, insufficient_funds, currency_mismatch, snapshot_not_found,
  clearing_account_not_found, transfer_in_progress, duplicate_idempotency_key,
  transaction_not_found, Result, ok, err,
}
use payments_engine.Decimal.{Decimals}
use payments_engine.Exec.{Exec, pure, raise, lift, try, ◌>>=◌, ◌>>◌}
use payments_engine.Account.{Account, active, status_beq}
use payments_engine.Money.{Money, from_decimal, same_currency, less_than}
use payments_engine.Store.{Env}
use payments_engine.Transaction.Status.{Transaction, pending}
use payments_engine.Transaction.Repository.{
  get_account_snapshot, get_account_by_code, create_transaction, get_transaction_by_idempotency_key,
}
use payments_engine.Transfer.Request.{TransferRequest, Config, invalid}
use payments_engine.World.{World, on_pool}

abbrev refuse_if : Result Bool → Result (Unit {0})
refuse_if (err e) = err (sentinel currency_mismatch)
refuse_if (ok true) = err (sentinel insufficient_funds)
refuse_if (ok false) = ok tt

module _ {D : Type 0} where
  abbrev pub requested : TransferRequest D → Money D
  requested req = from_decimal req.amount req.currency

  abbrev pub balance : Account D → Money D
  balance a = from_decimal a.balance a.currency

module _ {D : Type 0} ⦃o : Decimals D⦄ where
  -- the checks on the two accounts that were read
  unfoldable pub check_parties : TransferRequest D → Account D → Account D → Result (Unit {0})
  check_parties req from_acc to_acc =
      if not (same_currency (balance from_acc) (requested req))
        || not (same_currency (balance to_acc) (requested req))
      then err (sentinel currency_mismatch)
      else if not (status_beq from_acc.status active) || not (status_beq to_acc.status active)
      then err (invalid (text "accounts must be ACTIVE"))
      else refuse_if (less_than (balance from_acc) (requested req))

  abbrev pub clearing_error : Result (Account D) → Result (Account D)
  clearing_error (ok a) = ok a
  clearing_error (err e) =
      if is_error e snapshot_not_found
      then err (sentinel clearing_account_not_found)
      else err (wrap (text "load clearing account") e)

  -- the checks on the clearing account
  unfoldable pub check_clearing : TransferRequest D → Account D → Result (Unit {0})
  check_clearing req clearing =
      if not (same_currency (balance clearing) (requested req))
      then err (sentinel currency_mismatch)
      else if not (status_beq clearing.status active)
      then err (invalid (text "clearing account not ACTIVE"))
      else ok tt

  -- the row that is inserted; its id and times are the database's
  abbrev pub pending_transaction : TransferRequest D → Transaction D
  pending_transaction req = record {
    id = 0;
    idempotency_key = req.idempotency_key;
    from_account_id = req.from_account_id;
    to_account_id = req.to_account_id;
    amount = req.amount;
    currency = req.currency;
    status = pending;
    description = req.description;
    metadata = none;
    rail = req.rail;
    external_ref = none;
    failure_reason = none;
    journal_entry_id = none;
    created_at = 0;
    updated_at = 0;
    settled_at = none;
    expires_at = none;
  }

-- a new row, or the one that another request with the key has made
pub data Creation (D : Type 0) : Type 0 where
  created : Transaction D → Creation D
  existing : Transaction D → Creation D

module _ {D : Type 0} ⦃o : Decimals D⦄ (env : Env) (cfg : Config) where
  unfoldable pub load_clearing : TransferRequest D → Exec (World D) (Account D)
  load_clearing req = do
    r ← try (on_pool (get_account_by_code env cfg.clearing_code))
    clearing ← lift (clearing_error r)
    lift (check_clearing req clearing)
    pure clearing

  -- returns the clearing account
  unfoldable pub prepare : TransferRequest D → Exec (World D) (Account D)
  prepare req = do
    f ← try (on_pool (get_account_snapshot env req.from_account_id))
    from_acc ← lift (explained (text "load source account") f)
    t ← try (on_pool (get_account_snapshot env req.to_account_id))
    to_acc ← lift (explained (text "load destination account") t)
    lift (check_parties req from_acc to_acc)
    load_clearing req

  abbrev pub as_existing : Result (Transaction D) → Result (Creation D)
  as_existing (ok tx) = ok (existing tx)
  as_existing (err e) =
      if is_error e transaction_not_found
      then err (sentinel transfer_in_progress)
      else err (wrap (text "lookup duplicate idempotency key") e)

  unfoldable pub create_or_find : TransferRequest D → Exec (World D) (Creation D)
  create_or_find req = do
    r ← try (on_pool (create_transaction env (pending_transaction req)))
    elim r [
      | ok tx ↦ pure (created tx)
      | err e ↦
          if is_error e duplicate_idempotency_key
          then (try (on_pool (get_transaction_by_idempotency_key env req.idempotency_key))
              >>= λ found. lift (as_existing found))
          else raise (wrap (text "create transaction") e)
    ]
