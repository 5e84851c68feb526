-- ===== src/Transfer/Replay.antt =====
-- A transfer whose idempotency key already has a row.
use payments_engine.Base.{
  ℕ, Option, none, some, Text, ◌≡◌, refl, ◌∙◌, arith, Bool-cases, Option-cases, inl, inr,
}
use payments_engine.Error.{
  Error, is_error, duplicate_idempotency_key, transaction_not_found, Result, ok, err,
}
use payments_engine.Decimal.{Decimals}
use payments_engine.Exec.{lift}
use payments_engine.Exec.Keeps.{Keeps-try}
use payments_engine.Exec.Ends.{
  Ends, Ends_ok, Ends_err, Ends-ok, Ends-err, Ends-pure, Ends-raise, Ends-lift, Ends-bind, Ends-try,
  Ends-Keeps, Ends-both, either,
}
use payments_engine.Store.{Env, Session, statement, finish}
use payments_engine.Store.Tables.{Db}
use payments_engine.Transaction.Status.{Transaction}
use payments_engine.Transaction.Repository.{
  create_transaction, insert_transaction, insert_error, create_error, find_by_key,
}
use payments_engine.Transfer.Frame.{Framed, Anything, on_pool-Framed, clock-Framed}
use payments_engine.Transfer.Kept.{
  try_return_cached-Framed, unlock-Framed, acquire_exclusive-Framed, prepare-Framed,
  get_by_key-Shows,
}
use payments_engine.Transfer.Prepare.{
  Creation, created, existing, create_or_find, pending_transaction, as_existing,
}
use payments_engine.Transfer.Request.{TransferRequest, Config}
use payments_engine.Transfer.Service.{
  after_creation, run_claimed, after_claim, run_unless_cached, transfer,
}
use payments_engine.World.{World, on_pool, deferred, back_to_pool}

module _ {D : Type 0} ⦃o : Decimals D⦄ (env : Env) where
  insert_refused :
      (tx found : Transaction D) (n id : ℕ) (db : Db D)
      → find_by_key tx.idempotency_key db.transactions ≡ some found
      → ¬ (insert_error n id tx db ≡ none)
  insert_refused tx found n id db e h = ground arith

  -- the insertion stores nothing, whether its answer arrives or not
  stores_nothing :
      (tx found : Transaction D) (n : ℕ) (db : Db D)
      → find_by_key tx.idempotency_key db.transactions ≡ some found
      → (insert_transaction env tx n db).1 ≡ db
  stores_nothing tx found n db e = elim (Option-cases (insert_error n (env.fresh n) tx db)) [
    | inl x ↦ absurd (insert_refused tx found n (env.fresh n) db e x)
    | inr (x, refused) ↦ rw (refused, insert_transaction) refl
  ]

  kept_out :
      (tx found : Transaction D) (s : Session D) (v : Db D)
      → s.db ≡ v
      → find_by_key tx.idempotency_key s.db.transactions ≡ some found
      → Ends (λ _ _. ⊥) (λ t. t.db ≡ v) (finish s (insert_transaction env tx s.calls s.db))
  kept_out tx found s v h e =
      elim (Option-cases (insert_error s.calls (env.fresh s.calls) tx s.db)) [
        | inl x ↦ absurd (insert_refused tx found s.calls (env.fresh s.calls) s.db e x)
        | inr (x, refused) ↦ rw (refused, insert_transaction) (Ends-err x _ h)
      ]

  insert-Ends :
      (tx found : Transaction D) (s : Session D) (v : Db D)
      → s.db ≡ v
      → find_by_key tx.idempotency_key v.transactions ≡ some found
      → Ends (λ _ _. ⊥) (λ t. t.db ≡ v) (statement env (insert_transaction env tx) s)
  unfolding statement
  insert-Ends tx found s v h e = elim (Bool-cases (env.fails s.calls)) [
    | inl down ↦ elim (Bool-cases (env.landed s.calls)) [
      | inl took ↦
          rw (down, took) (Ends-err _ _ (stores_nothing tx found s.calls s.db (rw h e) ∙ h))
      | inr lost ↦ rw (down, lost) (Ends-err _ _ h)
    ]
    | inr up ↦ rw up (kept_out tx found s v h (rw h e))
  ]

  refused_error :
      (e : Error) (s : Session D) (v : Db D)
      → s.db ≡ v
      → Ends (λ _ _. ⊥) (λ t. t.db ≡ v) (lift (create_error {D = D} (err e)) s)
  unfolding lift
  refused_error e s v h = elim (Bool-cases (is_error e duplicate_idempotency_key)) [
    | inl same ↦ rw same (Ends-err _ s h)
    | inr other ↦ rw other (Ends-err _ s h)
  ]

  create-Ends :
      (tx found : Transaction D) (s : Session D) (v : Db D)
      → s.db ≡ v
      → find_by_key tx.idempotency_key v.transactions ≡ some found
      → Ends (λ _ _. ⊥) (λ t. t.db ≡ v) (create_transaction env tx s)
  unfolding create_transaction
  create-Ends tx found s v h e =
      Ends-try _ _ s (insert-Ends tx found s v h e) (λ a t q. absurd q)
        (λ f t q. refused_error f t v q)

module _ {D : Type 0} ⦃o : Decimals D⦄ (env : Env) (cfg : Config) (req : TransferRequest D)
    (found : Transaction D) (v : Db D)
    (taken : find_by_key req.idempotency_key v.transactions ≡ some found) where
  abbrev Same : World D → Type 0
  Same = Framed (λ (db : Db D). db) (λ db. db ≡ v) Anything

  -- a session's outcome, back in the world
  pooled :
      {A : Type 0} (w : World D) (x : Result A × Session D)
      → Ends (λ _ _. ⊥) (λ t. t.db ≡ v) x
      → Ends (λ _ _. ⊥) Same (back_to_pool w x)
  pooled w (ok a, s) h = absurd (Ends_ok a s h refl)
  pooled w (err e, s) h = Ends-err e _ (record { seen = Ends_err e s h refl; in_tx = tt })

  abbrev IsFound : Creation D → World D → Type 0
  IsFound (existing tx) w = Same w
  IsFound (created tx) w = ⊥

  not_created :
      (w : World D)
      → Same w
      → Ends (λ _ _. ⊥) Same (on_pool (create_transaction env (pending_transaction req)) w)
  unfolding on_pool
  not_created w h = pooled w _ (create-Ends env (pending_transaction req) found _ v h.seen taken)

  looked_up :
      (r : Result (Transaction D)) (w : World D)
      → Same w
      → Ends IsFound Same (lift (as_existing env cfg r) w)
  unfolding lift
  looked_up (ok tx) w h = Ends-ok _ w h
  looked_up (err e) w h = elim (Bool-cases (is_error e transaction_not_found)) [
    | inl none_there ↦ rw none_there (Ends-err _ w h)
    | inr other ↦ rw other (Ends-err _ w h)
  ]

  create_or_find-Ends : (w : World D) → Same w → Ends IsFound Same (create_or_find env cfg req w)
  unfolding create_or_find
  create_or_find-Ends w h =
      Ends-try _ _ w (not_created w h) (λ tx w1 h1. absurd h1)
        λ e w1 h1. elim (Bool-cases (is_error e duplicate_idempotency_key)) [
          | inl same ↦ rw same (
              Ends-bind _ _ w1
                (Ends-Keeps Same _ w1
                  (Keeps-try _ (on_pool-Framed _ _ Anything _ (get_by_key-Shows _ _ env _))) h1)
                λ r w2 h2. looked_up r w2 h2)
          | inr other ↦ rw other (Ends-raise _ w1 h1)
        ]

  module _ (trace : Text) (key : Text) where
    after_creation-Ends :
        (start clearing_id : ℕ) (made : Creation D) (w : World D)
        → IsFound made w
        → Ends (λ _. Same) Same (after_creation env cfg trace key start req clearing_id made w)
    after_creation-Ends start clearing_id (existing tx) w h = Ends-pure tx w h
    after_creation-Ends start clearing_id (created tx) w h = absurd h

    run_claimed-Ends :
        (start : ℕ) (w : World D)
        → Same w
        → Ends (λ _. Same) Same (run_claimed env cfg trace key start req w)
    unfolding run_claimed
    run_claimed-Ends start w h =
        Ends-bind _ _ w (Ends-Keeps Same _ w (prepare-Framed _ _ env cfg Anything req) h)
          λ clearing w1 h1.
            Ends-bind _ _ w1 (create_or_find-Ends w1 h1)
              λ made w2 h2. after_creation-Ends start clearing.id made w2 h2

    after_claim-Ends :
        (start : ℕ) (duplicate : Option (Transaction D)) (w : World D)
        → Same w
        → Ends (λ _. Same) Same (after_claim env cfg trace key start req duplicate w)
    unfolding deferred
    after_claim-Ends start (some tx) w h = Ends-pure tx w h
    after_claim-Ends start none w h = Ends-both Same _ (
        (unlock-Framed (λ db. db) (λ db. db ≡ v) env cfg Anything key).kept _
          (either Same (run_claimed-Ends start w h)))

    run_unless_cached-Ends :
        (start : ℕ) (cached : Option (Transaction D)) (w : World D)
        → Same w
        → Ends (λ _. Same) Same (run_unless_cached env cfg trace key start req cached w)
    unfolding run_unless_cached
    run_unless_cached-Ends start (some tx) w h = Ends-pure tx w h
    run_unless_cached-Ends start none w h =
        Ends-bind _ _ w (Ends-Keeps Same _ w (acquire_exclusive-Framed _ _ env cfg Anything key) h)
          λ duplicate w1 h1. after_claim-Ends start duplicate w1 h1

  transfer-Ends :
      (trace : Text) (w : World D) → Same w → Ends (λ _. Same) Same (transfer env cfg trace req w)
  unfolding transfer
  transfer-Ends trace w h =
      Ends-bind _ _ w (Ends-Keeps Same _ w (clock-Framed _ _ Anything env) h) λ start w1 h1.
        Ends-lift _ _ w1
          (λ _ valid.
            Ends-lift _ _ w1
              (λ _ configured.
                Ends-bind _ _ w1
                  (Ends-Keeps Same _ w1 (try_return_cached-Framed _ _ env cfg Anything _) h1)
                  λ cached w2 h2. run_unless_cached-Ends _ _ start cached w2 h2)
              h1)
          h1

-- A transfer is made at most once for a key: when a row with the request's idempotency key is there
-- already, Transfer changes no table, whatever the idempotency store holds under the key, whichever
-- calls fail, and whether it returns a transfer or an error.
pub transfer_again_unchanged :
    {D : Type 0} ⦃o : Decimals D⦄ (env : Env) (cfg : Config) (trace : Text)
    (req : TransferRequest D) (found : Transaction D) (w : World D)
    → find_by_key req.idempotency_key w.db.transactions ≡ some found
    → (transfer env cfg trace req w).1.db ≡ w.db
transfer_again_unchanged env cfg trace req found w taken =
    (either (Same env cfg req found w.db taken) (
      transfer-Ends env cfg req found w.db taken trace w (record { seen = refl; in_tx = tt }))).seen
