-- ===== src/Transfer/Trail.antt =====
-- emitTransferAudit: the events that a transfer leaves in the audit trail. Whatever fails here is
-- logged and dropped.
use payments_engine.Base.{ℕ, not, Option, none, some, Text, text, if◌then◌else◌}
use payments_engine.Error.{Error, explained, ok, err}
use payments_engine.Exec.{Exec, pure, lift, try, ◌>>=◌, ◌>>◌}
use payments_engine.Account.{Account}
use payments_engine.Audit.{
  transfer_payload, EventType, EntityType, account, transaction, JournalAuditPart, from, to,
  AuditPayload, build_transfer_audit_payload, clone_payload_with_audit_meta,
}
use payments_engine.Store.{Env}
use payments_engine.Transaction.Status.{Transaction}
use payments_engine.Transaction.Repository.{get_account_snapshot}
use payments_engine.Transfer.Request.{Config}
use payments_engine.World.{World, on_pool, log_event}

module _ {D : Type 0} (env : Env) (cfg : Config) (trace : Text) where
  unfoldable pub load_snapshot : Text → ℕ → Exec (World D) (Account D)
  load_snapshot context id = do
    r ← try (on_pool (get_account_snapshot env id))
    lift (explained context r)

  unfoldable pub load_three_account_snapshots :
      ℕ → ℕ → ℕ → Exec (World D) (Account D × Account D × Account D)
  unfolding load_snapshot
  load_three_account_snapshots from_id to_id clearing_id = do
    from_acc ← load_snapshot (text "from account") from_id
    to_acc ← load_snapshot (text "to account") to_id
    clearing_acc ← load_snapshot (text "clearing account") clearing_id
    pure (from_acc, to_acc, clearing_acc)

  unfoldable pub log_audit : EntityType → ℕ → EventType → AuditPayload D → Exec (World D) (Unit {0})
  log_audit entity_type entity_id event_type payload =
      try (
        log_event env (record {
          id = 0;
          entity_type = entity_type;
          entity_id = entity_id;
          event_type = event_type;
          actor = cfg.posted_by;
          payload = transfer_payload payload;
          occurred_at = 0;
        }))
      >> pure tt

  unfoldable pub log_three : EventType → Transaction D → AuditPayload D → Exec (World D) (Unit {0})
  unfolding log_audit
  log_three event tx payload = do
    log_audit transaction tx.id event (clone_payload_with_audit_meta payload transaction none)
    log_audit account tx.from_account_id event
        (clone_payload_with_audit_meta payload account (some from))
    log_audit account tx.to_account_id event
        (clone_payload_with_audit_meta payload account (some to))

  unfoldable pub emit_transfer_audit :
      EventType
      → Transaction D
      → ℕ
      → Option JournalAuditPart
      → Option (Text × Error)
      → ℕ
      → Exec (World D) (Unit {0})
  unfolding load_three_account_snapshots log_three
  emit_transfer_audit event tx clearing_id journal failure duration =
      if not cfg.has_audit then pure tt else do
        r ← try (load_three_account_snapshots tx.from_account_id tx.to_account_id clearing_id)
        elim r [
          | err _ ↦ pure tt
          | ok (f, t, c) ↦
              log_three event tx
                (build_transfer_audit_payload trace event tx f t c journal failure duration)
        ]
