-- ===== src/Transfer/Kept.antt =====
-- The steps of a transfer that write no account, no entry and no line: the audit trail, the
-- idempotency store, and the statements on `transactions`.
use payments_engine.Base.{
  ℕ, Bool, true, false, not, Option, none, List, Text, ◌≡◌, refl, inl, inr, Option-cases,
}
use payments_engine.Error.{Error}
use payments_engine.Decimal.{Decimals}
use payments_engine.Exec.Keeps.{
  Keeps, keeps_rules, Keeps-pure, Keeps-raise, Keeps-lift, Keeps-try, Keeps-if, Keeps-bind,
  Keeps-elim,
}
use payments_engine.Audit.{
  EventType, EntityType, JournalAuditPart, AuditPayload, build_transfer_audit_payload,
}
use payments_engine.Store.{Env}
use payments_engine.Store.Tables.{Db}
use payments_engine.Transaction.Status.{Transaction, TxStatus}
use payments_engine.Transaction.Repository.{
  update_status, fail_transaction, get_account_snapshot, get_account_by_code,
  get_transaction_by_idempotency_key, create_transaction, insert_transaction, insert_error,
}
use payments_engine.Transfer.Claim.{
  try_return_cached, acquire_exclusive, store_result, release, unlock,
}
use payments_engine.Transfer.Prepare.{load_clearing, prepare, create_or_find}
use payments_engine.Transfer.Request.{TransferRequest, Config}
use payments_engine.Transfer.Trail.{
  load_snapshot, load_three_account_snapshots, log_audit, log_three, emit_transfer_audit,
}
use payments_engine.Transfer.Frame.{
  Shows, Framed, statement-Shows, query-Shows, on_pool-Framed, store_get-Framed, store_set-Framed,
  store_set_nx-Framed, store_del-Framed, log_event-Framed, set_locked-Framed,
}

module _ {D V : Type 0} (view : Db D → V) (P : V → Type 0) (env : Env) where
  get_account_snapshot-Shows : (id : ℕ) → Keeps (Shows view P) (get_account_snapshot env id)
  unfolding get_account_snapshot
  get_account_snapshot-Shows id = search (keeps_rules, query-Shows)

  get_account_by_code-Shows : (code : Text) → Keeps (Shows view P) (get_account_by_code env code)
  unfolding get_account_by_code
  get_account_by_code-Shows code = search (keeps_rules, query-Shows)

  pub get_by_key-Shows :
      (key : Text) → Keeps (Shows view P) (get_transaction_by_idempotency_key env key)
  unfolding get_transaction_by_idempotency_key
  get_by_key-Shows key = search (keeps_rules, query-Shows)

  module _ (cfg : Config) (trace : Text) (Y : Option (Db D) → Type 0) where
    load_snapshot-Framed :
        (context : Text) (id : ℕ) → Keeps (Framed view P Y) (load_snapshot env cfg trace context id)
    unfolding load_snapshot
    load_snapshot-Framed context id =
        search (keeps_rules, on_pool-Framed, get_account_snapshot-Shows)

    log_audit-Framed :
        (entity : EntityType) (id : ℕ) (event : EventType) (payload : AuditPayload D)
        → Keeps (Framed view P Y) (log_audit env cfg trace entity id event payload)
    unfolding log_audit
    log_audit-Framed entity id event payload = search (keeps_rules, log_event-Framed)

    load_three-Framed :
        (a b c : ℕ) → Keeps (Framed view P Y) (load_three_account_snapshots env cfg trace a b c)
    unfolding load_three_account_snapshots
    load_three-Framed a b c = search (keeps_rules, load_snapshot-Framed)

    log_three-Framed :
        (event : EventType) (tx : Transaction D) (payload : AuditPayload D)
        → Keeps (Framed view P Y) (log_three env cfg trace event tx payload)
    unfolding log_three
    log_three-Framed event tx payload = search (keeps_rules, log_audit-Framed)

    pub emit_transfer_audit-Framed :
        (event : EventType) (tx : Transaction D) (clearing_id : ℕ)
        (journal : Option JournalAuditPart) (failure : Option (Text × Error)) (duration : ℕ)
        → Keeps
            (Framed view P Y)
            (emit_transfer_audit env cfg trace event tx clearing_id journal failure duration)
    unfolding emit_transfer_audit
    emit_transfer_audit-Framed event tx clearing_id journal failure duration =
        Keeps-if (not cfg.has_audit) _ _ (Keeps-pure tt) (
          Keeps-bind _ _ (Keeps-try _ (load_three-Framed _ _ _)) λ r.
            Keeps-elim _ _ r
              (λ a.
                log_three-Framed event tx (
                  build_transfer_audit_payload trace event tx a.0 a.1 a.2 journal failure duration))
              (λ _. Keeps-pure tt))

  module _ (cfg : Config) (Y : Option (Db D) → Type 0) where
    pub try_return_cached-Framed :
        ⦃o : Decimals D⦄ (key : Text) → Keeps (Framed view P Y) (try_return_cached env cfg key)
    unfolding try_return_cached
    try_return_cached-Framed key = search (keeps_rules, store_get-Framed)

    pub store_result-Framed :
        ⦃o : Decimals D⦄ (key : Text) (tx : Transaction D)
        → Keeps (Framed view P Y) (store_result env cfg key tx)
    unfolding store_result
    store_result-Framed key tx = search (keeps_rules, store_set-Framed)

    release-Framed :
        ⦃o : Decimals D⦄ (key : Text) (b : Bool) → Keeps (Framed view P Y) (release env cfg key b)
    release-Framed key true = search (keeps_rules, store_del-Framed)
    release-Framed key false = Keeps-pure tt

    pub unlock-Framed : ⦃o : Decimals D⦄ (key : Text) → Keeps (Framed view P Y) (unlock env cfg key)
    unfolding unlock
    unlock-Framed key = record { kept = λ w h. (release-Framed key w.idem_locked).kept w h }

    pub acquire_exclusive-Framed :
        ⦃o : Decimals D⦄ (key : Text) → Keeps (Framed view P Y) (acquire_exclusive env cfg key)
    unfolding acquire_exclusive
    acquire_exclusive-Framed key = Keeps-if (not cfg.has_store) _ _ (Keeps-pure none) (
        Keeps-bind _ _ (Keeps-try _ (store_set_nx-Framed view P Y env key _)) λ r.
          Keeps-elim _ _ r
            (λ b.
              Keeps-if b _ _ (search (keeps_rules, set_locked-Framed))
                (search (keeps_rules, store_get-Framed)))
            (λ e. Keeps-raise _))

    load_clearing-Framed :
        ⦃o : Decimals D⦄ (req : TransferRequest D)
        → Keeps (Framed view P Y) (load_clearing env cfg req)
    unfolding load_clearing
    load_clearing-Framed req = search (keeps_rules, on_pool-Framed, get_account_by_code-Shows)

    pub prepare-Framed :
        ⦃o : Decimals D⦄ (req : TransferRequest D) → Keeps (Framed view P Y) (prepare env cfg req)
    unfolding prepare
    prepare-Framed req =
        search (keeps_rules, on_pool-Framed, get_account_snapshot-Shows, load_clearing-Framed) depth
          14

  -- a view that shows no row of `transactions`
  module _
      (blind : (db : Db D) (rows : List (Transaction D))
        → view (record db { transactions = rows }) ≡ view db) where
    pub update_status-Shows :
        (id : ℕ) (from to : TxStatus) (at : Option ℕ)
        → Keeps (Shows view P) (update_status env id from to at)
    unfolding update_status
    update_status-Shows id from to at =
        Keeps-bind _ _ (Keeps-try _ (statement-Shows view P env _ (λ n db. blind db _)))
          λ out. Keeps-lift _

    pub fail_transaction-Shows :
        (id : ℕ) (reason : Error) → Keeps (Shows view P) (fail_transaction env id reason)
    unfolding fail_transaction
    fail_transaction-Shows id reason =
        Keeps-bind _ _ (Keeps-try _ (statement-Shows view P env _ (λ n db. blind db _)))
          λ out. Keeps-elim _ _ out (λ tx. Keeps-pure tx) (λ e. search (keeps_rules, query-Shows))

    module _ ⦃o : Decimals D⦄ where
      insert-view :
          (tx : Transaction D) (n : ℕ) (db : Db D)
          → view (insert_transaction env tx n db).1 ≡ view db
      insert-view tx n db = elim (Option-cases (insert_error n (env.fresh n) tx db)) [
        | inl e ↦ rw (e, insert_transaction) (blind db _)
        | inr (x, e) ↦ rw (e, insert_transaction) refl
      ]

      create_transaction-Shows :
          (tx : Transaction D) → Keeps (Shows view P) (create_transaction env tx)
      unfolding create_transaction
      create_transaction-Shows tx =
          Keeps-bind _ _ (Keeps-try _ (statement-Shows view P env _ (insert-view tx)))
            λ out. Keeps-lift _

      pub create_or_find-Framed :
          (cfg : Config) (Y : Option (Db D) → Type 0) (req : TransferRequest D)
          → Keeps (Framed view P Y) (create_or_find env cfg req)
      unfolding create_or_find
      create_or_find-Framed cfg Y req =
          Keeps-bind _ _ (Keeps-try _ (on_pool-Framed view P Y _ (create_transaction-Shows _))) λ r.
            Keeps-elim _ _ r (λ tx. Keeps-pure _)
              (λ e. search (keeps_rules, on_pool-Framed, get_by_key-Shows))
