-- ===== src/Transfer/Steps.antt =====
-- The posting part of a transfer: failTx, and the statements in its database transaction.
use payments_engine.Base.{ℕ, Text, ◌≡◌, refl, inl, inr, Bool-cases}
use payments_engine.Error.{Error, is_error, ledger_insufficient_funds}
use payments_engine.Decimal.{Decimals}
use payments_engine.Exec.{Exec}
use payments_engine.Exec.Keeps.{Keeps-bind, Keeps-try}
use payments_engine.Exec.Success.{After-last}
use payments_engine.Exec.Ends.{Ends, Ends-pure, Ends-raise, Ends-bind, Ends-try, Ends-Keeps}
use payments_engine.Ledger.Effect.{IsPosted, post-After}
use payments_engine.Store.{Env, Session}
use payments_engine.Store.Tables.{Db}
use payments_engine.Transaction.Status.{Transaction}
use payments_engine.Transfer.Frame.{
  Framed, Anything, on_pool-Framed, clock-Framed, set_locked-Framed, rollback-Framed,
}
use payments_engine.Transfer.Kept.{
  emit_transfer_audit-Framed, store_result-Framed, update_status-Shows, fail_transaction-Shows,
}
use payments_engine.Transfer.Moves.{
  ledger_of, IsTransferred, InTx, In, Out, on_tx-Ends, on_tx-Shows, aside, commit-Ends,
}
use payments_engine.Transfer.Request.{TransferRequest, Config}
use payments_engine.Transfer.Service.{
  fail_tx, or_fail, post_clearing, post_settlement, settle_in_tx,
}
use payments_engine.Transfer.Legs.{clearing_entry, settlement_entry}
use payments_engine.World.{World}

module _ {D : Type 0} ⦃o : Decimals D⦄ (env : Env) (cfg : Config) (trace : Text) (key : Text)
    (P : Db D → Type 0) where
  fail_tx-Ends :
      {A : Type 0} {Q : A → World D → Type 0} (tx : Transaction D) (clearing_id : ℕ) (step : Text)
      (reason return_err : Error) (w : World D)
      → Out P w
      → Ends Q (Out P) (fail_tx env cfg trace key tx clearing_id step reason return_err w)
  unfolding fail_tx
  fail_tx-Ends tx clearing_id step reason return_err w h =
      Ends-bind _ _ w (Ends-Keeps (Out P) _ w (rollback-Framed ledger_of P) h) λ _ w1 h1.
        Ends-try _ _ w1
          (Ends-Keeps (Out P) _ w1
            (on_pool-Framed ledger_of P Anything _
              (fail_transaction-Shows ledger_of P env (λ db rows. refl) _ _))
            h1)
          (λ failed w2 h2.
            Ends-bind _ _ w2
              (Ends-Keeps (Out P) _ w2
                (Keeps-bind _ _
                  (Keeps-bind _ _
                    (Keeps-try _ (store_result-Framed ledger_of P env cfg Anything _ _))
                    (λ _. set_locked-Framed ledger_of P Anything _))
                  (λ _. emit_transfer_audit-Framed ledger_of P env cfg _ Anything _ _ _ _ _ _))
                h2)
              λ _ w3 h3. Ends-raise _ w3 h3)
          (λ e w2 h2. Ends-raise _ w2 h2)

  or_fail-Ends :
      {A : Type 0} {Q : A → World D → Type 0} (tx : Transaction D) (clearing_id : ℕ)
      (step context : Text) (m : Exec (World D) A) (w : World D)
      → Ends Q (Out P) (m w)
      → Ends Q (Out P) (or_fail env cfg trace key tx clearing_id step context m w)
  unfolding or_fail
  or_fail-Ends tx clearing_id step context m w h =
      Ends-try m _ w h (λ a t q. Ends-pure a t q)
        (λ e t q. fail_tx-Ends tx clearing_id step _ _ t q)

  module _ (req : TransferRequest D) (tx : Transaction D) (clearing_id : ℕ) (v : Db D) where
    -- the tables in the open transaction, once the clearing entry is posted
    record IsCleared (l : Db D) : Type 0 where
      id : ℕ
      start : Session D
      cleared : Session D
      start_eq : ledger_of start.db ≡ v
      first : IsPosted env (clearing_entry cfg req tx.id clearing_id) start id cleared
      cleared_eq : l ≡ ledger_of cleared.db

    abbrev IsDone : Db D → Type 0
    IsDone l = IsTransferred env cfg req v l

    post_clearing-Ends :
        (w : World D)
        → In P (λ l. l ≡ v) w
        → Ends (λ _. In P IsCleared) (Out P) (post_clearing env cfg trace key req tx clearing_id w)
    unfolding post_clearing
    post_clearing-Ends w h =
        Ends-try _ _ w
          (on_tx-Ends P (λ l. l ≡ v) IsCleared _ w h
            λ s e.
              After-last (post-After env (clearing_entry cfg req tx.id clearing_id) s) λ id t p.
                record {
                  id = id;
                  start = s;
                  cleared = t;
                  start_eq = e;
                  first = p;
                  cleared_eq = refl;
                })
          (λ id t q. Ends-pure id t q)
          (λ e t q. elim (Bool-cases (is_error e ledger_insufficient_funds)) [
            | inl short ↦ rw short (fail_tx-Ends tx clearing_id _ _ _ t q)
            | inr other ↦ rw other (fail_tx-Ends tx clearing_id _ _ _ t q)
          ])

    post_settlement-Ends :
        (w : World D)
        → In P IsCleared w
        → Ends (λ _. In P IsDone) (Out P) (post_settlement env cfg trace key req tx clearing_id w)
    unfolding post_settlement
    post_settlement-Ends w h = or_fail-Ends tx clearing_id _ _ _ w (
        on_tx-Ends P IsCleared IsDone _ w h λ s c.
          After-last (post-After env (settlement_entry cfg req tx.id clearing_id) s) λ id t p.
            record {
              tx_id = tx.id;
              clearing_id = clearing_id;
              first_id = c.id;
              second_id = id;
              start = c.start;
              cleared = c.cleared;
              resumed = s;
              end = t;
              start_eq = c.start_eq;
              first = c.first;
              resumed_eq = c.cleared_eq;
              second = p;
              end_eq = refl;
            })

    pub settle_in_tx-Ends :
        (w : World D)
        → In P (λ l. l ≡ v) w
        → ((l : Db D) → IsDone l → P l)
        → Ends
            (λ _. Framed ledger_of IsDone Anything)
            (Out P)
            (settle_in_tx env cfg trace key req tx clearing_id w)
    unfolding settle_in_tx
    settle_in_tx-Ends w h done = Ends-bind _ _ w (post_clearing-Ends w h) λ _ w1 h1.
        Ends-bind _ _ w1
          (aside P IsCleared _ w1
            (emit_transfer_audit-Framed ledger_of P env cfg _ (InTx IsCleared) _ _ _ _ _ _) h1)
          λ _ w2 h2.
            Ends-bind _ _ w2
              (aside P IsCleared _ w2
                (emit_transfer_audit-Framed ledger_of P env cfg _ (InTx IsCleared) _ _ _ _ _ _) h2)
              λ _ w3 h3.
                Ends-bind _ _ w3
                  (or_fail-Ends tx clearing_id _ _ _ w3 (
                    on_tx-Shows P IsCleared _ w3
                      (update_status-Shows ledger_of IsCleared env (λ db rows. refl) _ _ _ _) h3))
                  λ _ w4 h4. Ends-bind _ _ w4 (post_settlement-Ends w4 h4) λ _ w5 h5.
                    Ends-bind _ _ w5
                      (aside P IsDone _ w5
                        (emit_transfer_audit-Framed ledger_of P env cfg _ (InTx IsDone) _ _ _ _ _ _)
                        h5)
                      λ _ w6 h6.
                        Ends-bind _ _ w6
                          (aside P IsDone _ w6 (clock-Framed ledger_of P (InTx IsDone) env) h6)
                          λ now w7 h7.
                            Ends-bind _ _ w7
                              (or_fail-Ends tx clearing_id _ _ _ w7 (
                                on_tx-Shows P IsDone _ w7
                                  (update_status-Shows ledger_of IsDone env (λ db rows. refl) _ _ _
                                    _)
                                  h7))
                              λ _ w8 h8.
                                Ends-bind _ _ w8
                                  (or_fail-Ends tx clearing_id _ _ _ w8
                                    (commit-Ends P env IsDone w8 h8 done))
                                  λ _ w9 h9. Ends-pure _ w9 h9
