-- ===== src/Transfer/Service.antt =====
-- The second half of Transfer, from the created row to the settled one, and the whole of it.
use payments_engine.Base.{
  ℕ, ◌-◌, false, not, Option, none, some, [], Text, text, ◌==◌, text_eq, if◌then◌else◌,
}
use payments_engine.Error.{
  Error, sentinel, wrap, also, is_error, insufficient_funds, ledger_insufficient_funds, Result, ok,
  err,
}
use payments_engine.Decimal.{Decimals}
use payments_engine.Exec.{Exec, pure, raise, lift, try, ◌>>=◌, ◌>>◌}
use payments_engine.Audit.{
  transfer_initiated, hold_placed, journal_entry_posted, transfer_settled, transfer_failed,
  JournalAuditPart, clearing, settlement,
}
use payments_engine.Ledger.Repository.{post_journal_entry_tx}
use payments_engine.Store.{Env}
use payments_engine.Transaction.Status.{Transaction, pending, processing, settled}
use payments_engine.Transaction.Repository.{update_status, fail_transaction}
use payments_engine.Transfer.Claim.{try_return_cached, acquire_exclusive, store_result, unlock}
use payments_engine.Transfer.Prepare.{Creation, created, existing, prepare, create_or_find}
use payments_engine.Transfer.Request.{
  TransferRequest, Config, invalid, validate_transfer_request, idempotency_transfer_key,
}
use payments_engine.Transfer.Trail.{emit_transfer_audit}
use payments_engine.World.{
  World, on_pool, on_tx, begin_tx, commit, rollback, set_locked, deferred, clock,
}
use payments_engine.Transfer.Legs.{clearing_entry, or_zero, settlement_entry}

abbrev pub shown_trace : Text → Text
shown_trace trace = if trace == [] then text "-" else trace

-- a missing ledger service
abbrev pub require_ledger : Config → Result (Unit {0})
require_ledger cfg =
    if not cfg.has_ledger then err (invalid (text "ledger service is required")) else ok tt

module _ {D : Type 0} ⦃o : Decimals D⦄ (env : Env) (cfg : Config) (trace : Text) (key : Text) where
  -- failTx: the open transaction is rolled back before the row is marked
  unfoldable pub fail_tx :
      {A : Type 0} → Transaction D → ℕ → Text → Error → Error → Exec (World D) A
  fail_tx tx clearing_id step reason return_err = do
    rollback
    r ← try (on_pool (fail_transaction env tx.id reason))
    elim r [
      | err ferr ↦ raise (also return_err ferr)
      | ok failed ↦
          try (store_result env cfg key failed)
          >> set_locked false
          >> emit_transfer_audit env cfg trace transfer_failed failed clearing_id none
              (some (step, reason)) 0
          >> raise return_err
    ]

  -- `if err != nil { return failTx(step, err.Error(), wrapped) }`
  unfoldable pub or_fail :
      {A : Type 0} → Transaction D → ℕ → Text → Text → Exec (World D) A → Exec (World D) A
  or_fail tx clearing_id step context m = do
    r ← try m
    elim r [ ok a ↦ pure a | err e ↦ fail_tx tx clearing_id step e (wrap context e) ]

  unfoldable pub post_clearing : TransferRequest D → Transaction D → ℕ → Exec (World D) ℕ
  post_clearing req tx clearing_id = do
    r ← try (on_tx (post_journal_entry_tx env (clearing_entry cfg req tx.id clearing_id)))
    elim r [
      | ok id ↦ pure id
      | err e ↦
          if is_error e ledger_insufficient_funds
          then fail_tx tx clearing_id (text "post_clearing_journal") (sentinel insufficient_funds)
              (sentinel insufficient_funds)
          else fail_tx tx clearing_id (text "post_clearing_journal") e
              (wrap (text "post clearing entry") e)
    ]

  unfoldable pub post_settlement : TransferRequest D → Transaction D → ℕ → Exec (World D) ℕ
  post_settlement req tx clearing_id =
      or_fail tx clearing_id (text "post_settlement_journal") (text "post settlement entry")
        (on_tx (post_journal_entry_tx env (settlement_entry cfg req tx.id clearing_id)))

  -- the statements in the open transaction, up to the commit
  unfoldable pub settle_in_tx :
      TransferRequest D → Transaction D → ℕ → Exec (World D) (Transaction D × ℕ)
  settle_in_tx req tx clearing_id = do
    clearing_entry_id ← post_clearing req tx clearing_id
    let cleared : JournalAuditPart = record {
      entry_id = clearing_entry_id;
      phase = clearing;
      description = text "transfer clearing";
    }
    emit_transfer_audit env cfg trace hold_placed tx clearing_id (some cleared) none 0
    emit_transfer_audit env cfg trace journal_entry_posted tx clearing_id (some cleared) none 0
    processing_tx ←
        or_fail tx clearing_id (text "transition_processing") (text "transition to PROCESSING")
          (on_tx (update_status env tx.id pending processing none))
    settlement_entry_id ← post_settlement req tx clearing_id
    let moved : JournalAuditPart = record {
      entry_id = settlement_entry_id;
      phase = settlement;
      description = text "transfer settlement";
    }
    emit_transfer_audit env cfg trace journal_entry_posted processing_tx clearing_id (some moved)
        none 0
    now ← clock env
    settled_tx ←
        or_fail tx clearing_id (text "transition_settled") (text "transition to SETTLED")
          (on_tx (update_status env tx.id processing settled (some now)))
    or_fail tx clearing_id (text "commit_settled") (text "commit settlement") (commit env)
    pure (settled_tx, settlement_entry_id)

  unfoldable pub run_created :
      ℕ → TransferRequest D → Transaction D → ℕ → Exec (World D) (Transaction D)
  run_created start req tx clearing_id = do
    emit_transfer_audit env cfg trace transfer_initiated tx clearing_id none none 0
    begun ← try (begin_tx env)
    elim begun [
      | err e ↦ do
        failed ← try (on_pool (fail_transaction env tx.id (wrap (text "begin transfer tx") e)))
        try (store_result env cfg key (or_zero failed))
        set_locked false
        raise (wrap (text "begin transfer tx") e)
      | ok _ ↦ deferred rollback do
        (settled_tx, entry_id) ← settle_in_tx req tx clearing_id
        store_result env cfg key settled_tx
        set_locked false
        let moved : JournalAuditPart = record {
          entry_id = entry_id;
          phase = settlement;
          description = text "transfer settlement";
        }
        stop ← clock env
        emit_transfer_audit env cfg trace transfer_settled settled_tx clearing_id (some moved) none
            (stop - start)
        pure settled_tx
    ]

  abbrev pub after_creation :
      ℕ → TransferRequest D → ℕ → Creation D → Exec (World D) (Transaction D)
  after_creation start req clearing_id (existing tx) = pure tx
  after_creation start req clearing_id (created tx) = run_created start req tx clearing_id

  unfoldable pub run_claimed : ℕ → TransferRequest D → Exec (World D) (Transaction D)
  run_claimed start req = do
    clearing_acc ← prepare env cfg req
    creation ← create_or_find env cfg req
    after_creation start req clearing_acc.id creation

  abbrev pub after_claim :
      ℕ → TransferRequest D → Option (Transaction D) → Exec (World D) (Transaction D)
  after_claim start req (some tx) = pure tx
  after_claim start req none = deferred (unlock env cfg key) (run_claimed start req)

  unfoldable pub run_unless_cached :
      ℕ → TransferRequest D → Option (Transaction D) → Exec (World D) (Transaction D)
  run_unless_cached start req (some tx) = pure tx
  run_unless_cached start req none = do
    duplicate ← acquire_exclusive env cfg key
    after_claim start req duplicate

module _ {D : Type 0} ⦃o : Decimals D⦄ (env : Env) (cfg : Config) where
  unfoldable pub transfer : Text → TransferRequest D → Exec (World D) (Transaction D)
  transfer trace req = do
    start ← clock env
    lift (validate_transfer_request req)
    lift (require_ledger cfg)
    let key = idempotency_transfer_key req.idempotency_key
    cached ← try_return_cached env cfg key
    run_unless_cached env cfg (shown_trace trace) key start req cached
