-- ===== src/World.antt =====
-- What a service call of internal/transaction sees and changes: the committed database, the
-- transaction that it has open, the idempotency store, the audit trail, and its own lock flag.
pub mod Pool
pub mod Tx
use payments_engine.Base.{
  ℕ, suc, Bool, true, false, Option, none, some, List, ◌∷◌, Text, text, if◌then◌else◌,
}
use payments_engine.Error.{driver, message, sentinel, key_not_found, Result, ok, err}
use payments_engine.Exec.{Exec}
use payments_engine.Audit.{AuditEvent}
use payments_engine.Idempotency.{Stored, Keys, put_key}
use payments_engine.Store.{Env, Session}
use payments_engine.Store.Tables.{Db}

-- `calls` counts the calls to the environment; `open_tx` is the open transaction's view of the
-- tables; `idem_locked` is the local variable of Transfer that its deferred function reads.
pub record World (D : Type 0) : Type 0 where
  pub db : Db D
  pub calls : ℕ
  pub open_tx : Option (Db D)
  pub keys : Keys
  pub audit : List (AuditEvent D)
  pub idem_locked : Bool

abbrev pub or_not_found : Option Stored → Result Stored
or_not_found none = err (sentinel key_not_found)
or_not_found (some v) = ok v

module _ {D : Type 0} where
  abbrev pub back_to_pool : {A : Type 0} → World D → Result A × Session D → Result A × World D
  back_to_pool w (r, s) = (r, record w { db = s.db; calls = s.calls })

  abbrev pub back_to_tx : {A : Type 0} → World D → Result A × Session D → Result A × World D
  back_to_tx w (r, s) = (r, record w { open_tx = some s.db; calls = s.calls })

  -- statements on a connection of the pool, each committed by itself
  unfoldable pub on_pool : {A : Type 0} → Exec (Session D) A → Exec (World D) A
  on_pool m w = back_to_pool w (m (record { db = w.db; calls = w.calls }))

  abbrev pub run_tx :
      {A : Type 0} → Exec (Session D) A → World D → Option (Db D) → Result A × World D
  run_tx m w none = (err (message (text "tx is closed")), w)
  run_tx m w (some view) = back_to_tx w (m (record { db = view; calls = w.calls }))

  -- statements in the open transaction
  unfoldable pub on_tx : {A : Type 0} → Exec (Session D) A → Exec (World D) A
  on_tx m w = run_tx m w w.open_tx

  abbrev pub tick : World D → World D
  tick w = record w { calls = suc w.calls }

  unfoldable pub begin_tx : Env → Exec (World D) (Unit {0})
  begin_tx env w =
      if env.fails w.calls
      then (err (driver w.calls), tick w)
      else (ok tt, record w { calls = suc w.calls; open_tx = some w.db })

  unfoldable pub rollback : Exec (World D) (Unit {0})
  rollback w = (ok tt, record w { open_tx = none })

  abbrev pub publish : World D → Option (Db D) → World D
  publish w none = tick w
  publish w (some view) = record w { db = view; calls = suc w.calls; open_tx = none }

  -- a commit may report an error although it has taken effect
  unfoldable pub commit : Env → Exec (World D) (Unit {0})
  commit env w =
      if env.fails w.calls
      then (
        err (driver w.calls),
        (if env.landed w.calls
            then publish w w.open_tx
            else record w { calls = suc w.calls; open_tx = none }),
      )
      else (ok tt, publish w w.open_tx)

  unfoldable pub set_locked : Bool → Exec (World D) (Unit {0})
  set_locked b w = (ok tt, record w { idem_locked = b })

  unfoldable pub clock : Env → Exec (World D) ℕ
  clock env w = (ok (env.now w.calls), w)

  -- after a call that reported an error: the world with its work done, where only the answer was lost
  abbrev pub lost_or : Env → World D → World D → World D
  lost_or env w done = if env.landed w.calls then done else tick w

  -- pkg/idempotency/redis_store.go
  abbrev pub visible : Env → World D → Text → Option Stored
  visible env w key = if env.lapsed w.calls then none else w.keys key

  unfoldable pub store_get : Env → Text → Exec (World D) Stored
  store_get env key w =
      if env.fails w.calls
      then (err (driver w.calls), tick w)
      else (or_not_found (visible env w key), tick w)

  unfoldable pub store_set : Env → Text → Stored → Exec (World D) (Unit {0})
  store_set env key v w =
      if env.fails w.calls
      then (
        err (driver w.calls),
        lost_or env w (record w { calls = suc w.calls; keys = put_key key (some v) w.keys }),
      )
      else (ok tt, record w { calls = suc w.calls; keys = put_key key (some v) w.keys })

  abbrev pub claim : Env → Text → Stored → World D → Option Stored → Result Bool × World D
  claim env key v w (some _) = (ok false, tick w)
  claim env key v w none =
      (ok true, record w { calls = suc w.calls; keys = put_key key (some v) w.keys })

  unfoldable pub store_set_nx : Env → Text → Stored → Exec (World D) Bool
  store_set_nx env key v w =
      if env.fails w.calls
      then (err (driver w.calls), lost_or env w (claim env key v w (visible env w key)).1)
      else claim env key v w (visible env w key)

  unfoldable pub store_del : Env → Text → Exec (World D) (Unit {0})
  store_del env key w =
      if env.fails w.calls
      then (
        err (driver w.calls),
        lost_or env w (record w { calls = suc w.calls; keys = put_key key none w.keys }),
      )
      else (ok tt, record w { calls = suc w.calls; keys = put_key key none w.keys })

  -- A deferred call runs whatever the outcome, and its own outcome is dropped.
  abbrev pub after_defer :
      {A : Type 0} → Result A → Result (Unit {0}) × World D → Result A × World D
  after_defer r (_, w) = (r, w)

  unfoldable pub deferred :
      {A : Type 0} → Exec (World D) (Unit {0}) → Exec (World D) A → Exec (World D) A
  deferred cleanup m w = let (r, w') = m w in after_defer r (cleanup w')

  -- INSERT INTO audit_events, on the pool
  abbrev pub stamp : Env → ℕ → AuditEvent D → AuditEvent D
  stamp env n event = record event { id = n; occurred_at = env.now n }

  unfoldable pub log_event : Env → AuditEvent D → Exec (World D) (Unit {0})
  log_event env event w =
      if env.fails w.calls
      then (
        err (driver w.calls),
        lost_or env w (record w { calls = suc w.calls; audit = stamp env w.calls event ∷ w.audit }),
      )
      else (ok tt, record w { calls = suc w.calls; audit = stamp env w.calls event ∷ w.audit })
