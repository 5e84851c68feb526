-- ===== src/Transfer/Fresh.antt =====
-- A transfer under a key that was never used.
use payments_engine.Base.{ℕ, true, Option, none, Text, ◌≡◌, refl, arith, Bool-cases, inl, inr}
use payments_engine.Error.{Error, is_error, key_not_found, Result, ok, err}
use payments_engine.Decimal.{Decimals}
use payments_engine.Exec.{pure, lift, ◌>>=◌}
use payments_engine.Exec.Ends.{
  Ends, Ends_ok, Ends-ok, Ends-err, Ends-pure, Ends-raise, Ends-lift, Ends-bind, Ends-try,
  Ends-weaken, Ends-Keeps,
}
use payments_engine.Idempotency.{in_progress}
use payments_engine.Store.{Env}
use payments_engine.Store.Tables.{Db}
use payments_engine.Transaction.Status.{Transaction}
use payments_engine.Transaction.Repository.{find_by_key}
use payments_engine.Transfer.Atomic.{Done, run_created-Ends}
use payments_engine.Transfer.Claim.{try_return_cached, acquire_exclusive, read_cached, unlock}
use payments_engine.Transfer.Frame.{Framed, Anything}
use payments_engine.Transfer.Kept.{prepare-Framed, unlock-Framed}
use payments_engine.Transfer.Moves.{ledger_of, IsTransferred}
use payments_engine.Transfer.Posted.{Any, IsNew, create_or_find-Ends}
use payments_engine.Transfer.Prepare.{Creation, created, existing}
use payments_engine.Transfer.Request.{TransferRequest, Config, idempotency_transfer_key}
use payments_engine.Transfer.Service.{
  after_creation, run_claimed, after_claim, run_unless_cached, transfer,
}
use payments_engine.World.{
  World, clock, store_get, store_set_nx, set_locked, deferred, after_defer, visible,
}

module _ {D : Type 0} ⦃o : Decimals D⦄ (env : Env) (cfg : Config) (v : Db D) (key : Text) where
  -- the tables are `v`, and nothing is stored under the key
  pub record IsFresh (w : World D) : Type 0 where
    pub db_eq : w.db ≡ v
    pub unused : w.keys key ≡ none

  not_visible : (w : World D) → IsFresh w → visible env w key ≡ none
  not_visible w h = ground (arith, h.unused)

  store_get-Ends : (w : World D) → IsFresh w → Ends (λ _ _. ⊥) IsFresh (store_get env key w)
  unfolding store_get
  store_get-Ends w h = elim (Bool-cases (env.fails w.calls)) [
    | inl down ↦ rw down (Ends-err _ _ (record { db_eq = h.db_eq; unused = h.unused }))
    | inr up ↦
        rw (up, not_visible w h) (Ends-err _ _ (record { db_eq = h.db_eq; unused = h.unused }))
  ]

  nothing_read :
      (e : Error) (w : World D)
      → IsFresh w
      → Ends
          (λ found u. (found ≡ none) × IsFresh u)
          Any
          (lift (read_cached {D = D} env cfg (err e)) w)
  unfolding lift
  nothing_read e w h = elim (Bool-cases (is_error e key_not_found)) [
    | inl missing ↦ rw missing (Ends-ok none w (refl, h))
    | inr other ↦ rw other (Ends-err _ w tt)
  ]

  try_return_cached-Ends :
      (w : World D)
      → IsFresh w
      → Ends (λ found u. (found ≡ none) × IsFresh u) Any (try_return_cached env cfg key w)
  unfolding try_return_cached
  try_return_cached-Ends w h = elim (Bool-cases cfg.has_store) [
    | inl there ↦
        simp there
          (Ends-try _ _ w (store_get-Ends w h) (λ a u q. absurd q) (λ e u q. nothing_read e u q))
    | inr absent ↦ simp absent (Ends-pure none w (refl, h))
  ]

  store_set_nx-Ends :
      (w : World D)
      → IsFresh w
      → Ends (λ mine u. (mine ≡ true) × (u.db ≡ v)) Any (store_set_nx env key in_progress w)
  unfolding store_set_nx
  store_set_nx-Ends w h = elim (Bool-cases (env.fails w.calls)) [
    | inl down ↦ rw down (Ends-err _ _ tt)
    | inr up ↦ rw (up, not_visible w h) (Ends-ok true _ (refl, h.db_eq))
  ]

  locked :
      (u : World D)
      → u.db ≡ v
      → Ends {A = Option (Transaction D)}
          (λ found t. (found ≡ none) × (t.db ≡ v))
          Any
          ((set_locked true >>= λ _. pure none) u)
  unfolding set_locked ◌>>=◌ pure
  locked u h = Ends-ok none _ (refl, h)

  acquire_exclusive-Ends :
      (w : World D)
      → IsFresh w
      → Ends (λ found u. (found ≡ none) × (u.db ≡ v)) Any (acquire_exclusive env cfg key w)
  unfolding acquire_exclusive
  acquire_exclusive-Ends w h = elim (Bool-cases cfg.has_store) [
    | inl there ↦ simp there (
        Ends-try _ _ w (store_set_nx-Ends w h) (λ mine u q. rw q.0 (locked u q.1))
          (λ e u q. Ends-raise _ u tt))
    | inr absent ↦ simp absent (Ends-pure none w (refl, h.db_eq))
  ]

  clock-Ends : (w : World D) → IsFresh w → Ends (λ _. IsFresh) Any (clock env w)
  unfolding clock
  clock-Ends w h = Ends-ok _ w h

module _ {D : Type 0} ⦃o : Decimals D⦄ (env : Env) (cfg : Config) (req : TransferRequest D)
    (v : Db D) (free : find_by_key req.idempotency_key v.transactions ≡ none) where
  abbrev Settled : World D → Type 0
  Settled = Done env cfg req (ledger_of v)

  module _ (trace : Text) (key : Text) where
    after_creation-Ends :
        (start clearing_id : ℕ) (made : Creation D) (w : World D)
        → IsNew env cfg req v free made w
        → Ends (λ _. Settled) Any (after_creation env cfg trace key start req clearing_id made w)
    after_creation-Ends start clearing_id (existing tx) w h = absurd h
    after_creation-Ends start clearing_id (created tx) w h =
        Ends-weaken
          (run_created-Ends env cfg req (ledger_of v) trace key start tx clearing_id w
            (record { seen = h; in_tx = tt }))
          (λ _ s q. q) (λ s q. tt)

    run_claimed-Ends :
        (start : ℕ) (w : World D)
        → w.db ≡ v
        → Ends (λ _. Settled) Any (run_claimed env cfg trace key start req w)
    unfolding run_claimed
    run_claimed-Ends start w h =
        Ends-bind _ _ w
          (Ends-weaken
            (Ends-Keeps (Framed (λ db. db) (λ db. db ≡ v) Anything) _ w
              (prepare-Framed (λ db. db) (λ db. db ≡ v) env cfg Anything req)
              (record { seen = h; in_tx = tt }))
            (λ _ s q. q) (λ s q. tt))
          λ clearing w1 h1.
            Ends-bind _ _ w1 (create_or_find-Ends env cfg req v free w1 h1.seen)
              λ made w2 h2. after_creation-Ends start clearing.id made w2 h2

    unlocked :
        {A : Type 0} (x : Result A × World D)
        → Ends (λ _. Settled) Any x
        → Ends (λ _. Settled) Any (after_defer x.0 (unlock env cfg key x.1))
    unlocked (ok a, s) h = Ends-ok a _ (
        (unlock-Framed ledger_of (IsTransferred env cfg req (ledger_of v)) env cfg Anything
            key).kept
          s (Ends_ok a s h refl))
    unlocked (err e, s) h = Ends-err e _ tt

    after_claim-Ends :
        (start : ℕ) (w : World D)
        → w.db ≡ v
        → Ends (λ _. Settled) Any (after_claim env cfg trace key start req none w)
    unfolding deferred
    after_claim-Ends start w h = unlocked _ (run_claimed-Ends start w h)

    run_unless_cached-Ends :
        (start : ℕ) (w : World D)
        → IsFresh env cfg v key w
        → Ends (λ _. Settled) Any (run_unless_cached env cfg trace key start req none w)
    unfolding run_unless_cached
    run_unless_cached-Ends start w h =
        Ends-bind _ _ w (acquire_exclusive-Ends env cfg v key w h)
          λ found u q. rw q.0 (after_claim-Ends start u q.1)

  transfer-Ends :
      (trace : Text) (w : World D)
      → IsFresh env cfg v (idempotency_transfer_key req.idempotency_key) w
      → Ends (λ _. Settled) Any (transfer env cfg trace req w)
  unfolding transfer
  transfer-Ends trace w h = Ends-bind _ _ w (clock-Ends env cfg v _ w h) λ start w1 h1.
      Ends-lift _ _ w1
        (λ _ valid.
          Ends-lift _ _ w1
            (λ _ configured.
              Ends-bind _ _ w1 (try_return_cached-Ends env cfg v _ w1 h1)
                λ cached w2 q. rw q.0 (run_unless_cached-Ends _ _ start w2 q.1))
            tt)
        tt

module _ {D : Type 0} ⦃o : Decimals D⦄ where
  -- A transfer that is reported was made: under a key that has no row and nothing stored in the
  -- idempotency store, when Transfer returns a transfer, the committed ledger is the one before
  -- with both of its journal entries posted.
  pub transfer-IsTransferred :
      (env : Env) (cfg : Config) (trace : Text) (req : TransferRequest D) (w w' : World D)
      (tx : Transaction D)
      → find_by_key req.idempotency_key w.db.transactions ≡ none
      → w.keys (idempotency_transfer_key req.idempotency_key) ≡ none
      → transfer env cfg trace req w ≡ (ok tx, w')
      → IsTransferred env cfg req (ledger_of w.db) (ledger_of w'.db)
  transfer-IsTransferred env cfg trace req w w' tx free unused e =
      (Ends_ok tx w'
        (transfer-Ends env cfg req w.db free trace w (record { db_eq = refl; unused = unused }))
        e).seen
