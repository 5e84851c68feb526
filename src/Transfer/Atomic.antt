-- ===== src/Transfer/Atomic.antt =====
-- A transfer posts both of its entries or none, wherever it fails.
use payments_engine.Base.{ℕ, Option, none, some, Text, ◌≡◌, refl, ◌⊎◌, inl, inr}
use payments_engine.Decimal.{Decimals}
use payments_engine.Exec.{Exec}
use payments_engine.Exec.Keeps.{Keeps, Keeps-try}
use payments_engine.Exec.Ends.{
  Ends, Ends-pure, Ends-raise, Ends-lift, Ends-bind, Ends-try, Ends-weaken, Ends-Keeps, either,
}
use payments_engine.Store.{Env}
use payments_engine.Store.Tables.{Db}
use payments_engine.Transaction.Status.{Transaction}
use payments_engine.Transfer.Frame.{
  Anything, on_pool-Framed, clock-Framed, set_locked-Framed, rollback-Framed,
}
use payments_engine.Transfer.Kept.{
  emit_transfer_audit-Framed, try_return_cached-Framed, store_result-Framed, unlock-Framed,
  acquire_exclusive-Framed, prepare-Framed, fail_transaction-Shows, create_or_find-Framed,
}
use payments_engine.Transfer.Moves.{ledger_of, IsTransferred, In, Out, begin_tx-Ends}
use payments_engine.Transfer.Prepare.{Creation, created, existing}
use payments_engine.Transfer.Request.{TransferRequest, Config}
use payments_engine.Transfer.Service.{
  run_created, after_creation, run_claimed, after_claim, run_unless_cached, transfer,
}
use payments_engine.World.{World, begin_tx, deferred, rollback}
use payments_engine.Transfer.Steps.{settle_in_tx-Ends}
use payments_engine.World.{after_defer}
use payments_engine.Error.{Result, ok, err}
use payments_engine.Exec.Ends.{Ends-ok, Ends-err, Ends_ok, Ends_err}

module _ {D : Type 0} ⦃o : Decimals D⦄ (env : Env) (cfg : Config) (req : TransferRequest D)
    (v : Db D) where
  -- the ledger as it was, or with the transfer's two entries posted
  abbrev pub NoneOrBoth : Db D → Type 0
  NoneOrBoth l = (l ≡ v) ⊎ IsTransferred env cfg req v l

  abbrev Before : World D → Type 0
  Before = Out (λ l. l ≡ v)

  abbrev End : World D → Type 0
  End = Out NoneOrBoth

  ended : (w : World D) → Before w → End w
  ended w h = record { seen = inl h.seen; in_tx = tt }

  early :
      {A : Type 0} (m : Exec (World D) A) (w : World D)
      → Keeps Before m
      → Before w
      → Ends (λ _. Before) End (m w)
  early m w k h = Ends-weaken (Ends-Keeps Before m w k h) (λ a s q. q) ended

  -- the ledger with both entries posted
  abbrev Posted : Db D → Type 0
  Posted l = IsTransferred env cfg req v l

  abbrev pub Done : World D → Type 0
  Done = Out Posted

  done : (w : World D) → Done w → End w
  done w h = record { seen = inr h.seen; in_tx = tt }

  past :
      {A : Type 0} (m : Exec (World D) A) (w : World D)
      → Keeps Done m
      → Done w
      → Ends (λ _. Done) End (m w)
  past m w k h = Ends-weaken (Ends-Keeps Done m w k h) (λ a s q. q) done

  late :
      {A : Type 0} (I : World D → Type 0) (c : Exec (World D) (Unit {0})) (x : Result A × World D)
      → Keeps I c
      → Keeps End c
      → Ends (λ _. I) End x
      → Ends (λ _. I) End (after_defer x.0 (c x.1))
  late I c (ok a, s) k l h = Ends-ok a _ (k.kept s (Ends_ok a s h refl))
  late I c (err e, s) k l h = Ends-err e _ (l.kept s (Ends_err e s h refl))

  begun-End : (w : World D) → Before w → Ends (λ _. In NoneOrBoth (λ l. l ≡ v)) End (begin_tx env w)
  begun-End w h = begin_tx-Ends NoneOrBoth env (λ l. l ≡ v) w (ended w h) h.seen

  module _ (trace : Text) (key : Text) where
    pub run_created-Ends :
        (start : ℕ) (tx : Transaction D) (clearing_id : ℕ) (w : World D)
        → Before w
        → Ends (λ _. Done) End (run_created env cfg trace key start req tx clearing_id w)
    unfolding run_created deferred
    run_created-Ends start tx clearing_id w h =
        Ends-bind _ _ w
          (early _ w
            (emit_transfer_audit-Framed ledger_of (λ l. l ≡ v) env cfg _ Anything _ _ _ _ _ _) h)
          λ _ w1 h1.
            Ends-try _ _ w1 (begun-End w1 h1)
              (λ _ w2 h2.
                late Done rollback _ (rollback-Framed ledger_of Posted)
                  (rollback-Framed ledger_of NoneOrBoth)
                  (Ends-bind _ _ w2
                    (settle_in_tx-Ends env cfg trace key NoneOrBoth req tx clearing_id v w2 h2
                      (λ l q. inr q))
                    λ _ w3 h3.
                      Ends-bind _ _ w3
                        (past _ w3 (store_result-Framed ledger_of Posted env cfg Anything _ _) h3)
                        λ _ w4 h4.
                          Ends-bind _ _ w4
                            (past _ w4 (set_locked-Framed ledger_of Posted Anything _) h4)
                            λ _ w5 h5.
                              Ends-bind _ _ w5
                                (past _ w5 (clock-Framed ledger_of Posted Anything env) h5)
                                λ _ w6 h6.
                                  Ends-bind _ _ w6
                                    (past _ w6
                                      (emit_transfer_audit-Framed ledger_of Posted env cfg _
                                        Anything _ _ _ _ _ _)
                                      h6)
                                    λ _ w7 h7. Ends-pure _ w7 h7))
              (λ e w2 h2.
                Ends-bind _ _ w2
                  (Ends-Keeps End _ w2
                    (Keeps-try _ (
                      on_pool-Framed ledger_of NoneOrBoth Anything _
                        (fail_transaction-Shows ledger_of NoneOrBoth env (λ db rows. refl) _ _)))
                    h2)
                  λ _ w3 h3.
                    Ends-bind _ _ w3
                      (Ends-Keeps End _ w3
                        (Keeps-try _
                          (store_result-Framed ledger_of NoneOrBoth env cfg Anything _ _))
                        h3)
                      λ _ w4 h4.
                        Ends-bind _ _ w4
                          (Ends-Keeps End _ w4 (set_locked-Framed ledger_of NoneOrBoth Anything _)
                            h4)
                          λ _ w5 h5. Ends-raise _ w5 h5)

    after_creation-Ends :
        (start clearing_id : ℕ) (made : Creation D) (w : World D)
        → Before w
        → Ends (λ _. End) End (after_creation env cfg trace key start req clearing_id made w)
    after_creation-Ends start clearing_id (existing tx) w h = Ends-pure tx w (ended w h)
    after_creation-Ends start clearing_id (created tx) w h =
        Ends-weaken (run_created-Ends start tx clearing_id w h) (λ _ s q. done s q) (λ s q. q)

    run_claimed-Ends :
        (start : ℕ) (w : World D)
        → Before w
        → Ends (λ _. End) End (run_claimed env cfg trace key start req w)
    unfolding run_claimed
    run_claimed-Ends start w h =
        Ends-bind _ _ w (early _ w (prepare-Framed ledger_of (λ l. l ≡ v) env cfg Anything req) h)
          λ clearing w1 h1.
            Ends-bind _ _ w1
              (early _ w1
                (create_or_find-Framed ledger_of (λ l. l ≡ v) env (λ db rows. refl) cfg Anything
                  req)
                h1)
              λ made w2 h2. after_creation-Ends start clearing.id made w2 h2

    after_claim-Ends :
        (start : ℕ) (duplicate : Option (Transaction D)) (w : World D)
        → Before w
        → Ends (λ _. End) End (after_claim env cfg trace key start req duplicate w)
    unfolding deferred
    after_claim-Ends start (some tx) w h = Ends-pure tx w (ended w h)
    after_claim-Ends start none w h =
        late End _ _ (unlock-Framed ledger_of NoneOrBoth env cfg Anything key)
          (unlock-Framed ledger_of NoneOrBoth env cfg Anything key) (run_claimed-Ends start w h)

    run_unless_cached-Ends :
        (start : ℕ) (cached : Option (Transaction D)) (w : World D)
        → Before w
        → Ends (λ _. End) End (run_unless_cached env cfg trace key start req cached w)
    unfolding run_unless_cached
    run_unless_cached-Ends start (some tx) w h = Ends-pure tx w (ended w h)
    run_unless_cached-Ends start none w h =
        Ends-bind _ _ w
          (early _ w (acquire_exclusive-Framed ledger_of (λ l. l ≡ v) env cfg Anything key) h)
          λ duplicate w1 h1. after_claim-Ends start duplicate w1 h1

  transfer-Ends :
      (trace : Text) (w : World D) → Before w → Ends (λ _. End) End (transfer env cfg trace req w)
  unfolding transfer
  transfer-Ends trace w h =
      Ends-bind _ _ w (early _ w (clock-Framed ledger_of (λ l. l ≡ v) Anything env) h)
        λ start w1 h1.
          Ends-lift _ _ w1
            (λ _ valid.
              Ends-lift _ _ w1
                (λ _ configured.
                  Ends-bind _ _ w1
                    (early _ w1 (try_return_cached-Framed ledger_of (λ l. l ≡ v) env cfg Anything _)
                      h1)
                    λ cached w2 h2. run_unless_cached-Ends _ _ start cached w2 h2)
                (ended w1 h1))
            (ended w1 h1)

-- Transfer is atomic on the ledger: whatever the request, the state and the outcome of every call
-- to the database and to the idempotency store are, and whether Transfer returns a transfer or an
-- error, the accounts, journal entries and entry lines that are committed afterwards are those that
-- were there before, or those with both entries of the transfer posted, the clearing entry first and
-- the settlement entry after it, each by a run of the posting that passed all of its checks.
pub transfer-NoneOrBoth :
    {D : Type 0} ⦃o : Decimals D⦄ (env : Env) (cfg : Config) (trace : Text)
    (req : TransferRequest D) (w : World D)
    → NoneOrBoth env cfg req (ledger_of w.db) (ledger_of (transfer env cfg trace req w).1.db)
transfer-NoneOrBoth env cfg trace req w =
    (either (Out (NoneOrBoth env cfg req (ledger_of w.db))) (
      transfer-Ends env cfg req (ledger_of w.db) trace w (record { seen = refl; in_tx = tt }))).seen
