-- ===== src/Transfer/Frame.antt =====
-- What the parts of a transfer leave alone: each part keeps what it does not write.
use payments_engine.Base.{ℕ, Bool, Option, Text, ◌≡◌, refl, sym, subst, arith, Bool-cases, inl, inr}
use payments_engine.Error.{Result}
use payments_engine.Exec.{Exec}
use payments_engine.Exec.Keeps.{Keeps}
use payments_engine.Audit.{AuditEvent}
use payments_engine.Idempotency.{Stored}
use payments_engine.Store.{Env, Session, statement, query}
use payments_engine.Store.Tables.{Db}
use payments_engine.World.{
  World, on_pool, store_get, store_set, store_set_nx, store_del, set_locked, log_event, clock,
  rollback,
}

-- what an action does to the tables: nothing
record Untouched {D A : Type 0} (m : Exec (World D) A) : Type 0 where
  db_eq : (w : World D) → (m w).1.db ≡ w.db
  tx_eq : (w : World D) → (m w).1.open_tx ≡ w.open_tx

module _ {D : Type 0} (env : Env) where
  store_get-Untouched : (key : Text) → Untouched {D = D} (store_get env key)
  unfolding store_get
  store_get-Untouched key = record { db_eq = λ w. ground arith; tx_eq = λ w. ground arith }

  store_set-Untouched : (key : Text) (v : Stored) → Untouched {D = D} (store_set env key v)
  unfolding store_set
  store_set-Untouched key v = record { db_eq = λ w. ground arith; tx_eq = λ w. ground arith }

  store_set_nx-Untouched : (key : Text) (v : Stored) → Untouched {D = D} (store_set_nx env key v)
  unfolding store_set_nx
  store_set_nx-Untouched key v = record { db_eq = λ w. ground arith; tx_eq = λ w. ground arith }

  store_del-Untouched : (key : Text) → Untouched {D = D} (store_del env key)
  unfolding store_del
  store_del-Untouched key = record { db_eq = λ w. ground arith; tx_eq = λ w. ground arith }

  log_event-Untouched : (event : AuditEvent D) → Untouched (log_event env event)
  unfolding log_event
  log_event-Untouched event = record { db_eq = λ w. ground arith; tx_eq = λ w. ground arith }

  clock-Untouched : Untouched {D = D} (clock env)
  unfolding clock
  clock-Untouched = record { db_eq = λ w. refl; tx_eq = λ w. refl }

set_locked-Untouched : {D : Type 0} (b : Bool) → Untouched {D = D} (set_locked b)
unfolding set_locked
set_locked-Untouched b = record { db_eq = λ w. refl; tx_eq = λ w. refl }

-- no claim about the open transaction
abbrev pub Anything : {D : Type 0} → Option (Db D) → Type 0
Anything _ = Unit

module _ {D V : Type 0} (view : Db D → V) (P : V → Type 0) where
  -- what a connection shows of the tables is as `P` says
  pub record Shows (s : Session D) : Type 0 where
    pub shown : P (view s.db)

  statement-view :
      {A : Type 0} (env : Env) (f : ℕ → Db D → Result A × Db D)
      → ((n : ℕ) (db : Db D) → view (f n db).1 ≡ view db)
      → (s : Session D) → view (statement env f s).1.db ≡ view s.db
  unfolding statement
  statement-view env f same s = elim (Bool-cases (env.fails s.calls)) [
    | inl down ↦ elim (Bool-cases (env.landed s.calls)) [
      | inl took ↦ rw (down, took) (same s.calls s.db)
      | inr lost ↦ rw (down, lost) refl
    ]
    | inr up ↦ rw up (same s.calls s.db)
  ]

  pub statement-Shows :
      {A : Type 0} (env : Env) (f : ℕ → Db D → Result A × Db D)
      → ((n : ℕ) (db : Db D) → view (f n db).1 ≡ view db)
      → Keeps Shows (statement env f)
  statement-Shows env f same = record {
    kept = λ s h. record { shown = subst P (sym (statement-view env f same s)) h.shown };
  }

  query-view :
      {A : Type 0} (env : Env) (f : Db D → Result A) (s : Session D)
      → view (query env f s).1.db ≡ view s.db
  unfolding query
  query-view env f s = elim (Bool-cases (env.fails s.calls)) [
    | inl down ↦ rw down refl
    | inr up ↦ rw up refl
  ]

  pub query-Shows : {A : Type 0} (env : Env) (f : Db D → Result A) → Keeps Shows (query env f)
  query-Shows env f = record {
    kept = λ s h. record { shown = subst P (sym (query-view env f s)) h.shown };
  }

  -- the committed tables are as `P` says, and the open transaction is as `Y` says
  pub record Framed (Y : Option (Db D) → Type 0) (w : World D) : Type 0 where
    pub seen : P (view w.db)
    pub in_tx : Y w.open_tx

  module _ (Y : Option (Db D) → Type 0) where
    Untouched-Framed : {A : Type 0} (m : Exec (World D) A) → Untouched m → Keeps (Framed Y) m
    Untouched-Framed m u = record {
      kept = λ w h. record {
        seen = subst (λ (db : Db D). P (view db)) (sym (u.db_eq w)) h.seen;
        in_tx = subst Y (sym (u.tx_eq w)) h.in_tx;
      };
    }

    pub on_pool-Framed :
        {A : Type 0} (m : Exec (Session D) A) → Keeps Shows m → Keeps (Framed Y) (on_pool m)
    unfolding on_pool
    on_pool-Framed m k = record {
      kept = λ w h. record {
        seen = (k.kept (record { db = w.db; calls = w.calls }) (record { shown = h.seen })).shown;
        in_tx = h.in_tx;
      };
    }

    pub store_get-Framed : (env : Env) (key : Text) → Keeps (Framed Y) (store_get env key)
    store_get-Framed env key = Untouched-Framed _ (store_get-Untouched env key)

    pub store_set-Framed :
        (env : Env) (key : Text) (v : Stored) → Keeps (Framed Y) (store_set env key v)
    store_set-Framed env key v = Untouched-Framed _ (store_set-Untouched env key v)

    pub store_set_nx-Framed :
        (env : Env) (key : Text) (v : Stored) → Keeps (Framed Y) (store_set_nx env key v)
    store_set_nx-Framed env key v = Untouched-Framed _ (store_set_nx-Untouched env key v)

    pub store_del-Framed : (env : Env) (key : Text) → Keeps (Framed Y) (store_del env key)
    store_del-Framed env key = Untouched-Framed _ (store_del-Untouched env key)

    pub log_event-Framed :
        (env : Env) (event : AuditEvent D) → Keeps (Framed Y) (log_event env event)
    log_event-Framed env event = Untouched-Framed _ (log_event-Untouched env event)

    pub clock-Framed : (env : Env) → Keeps (Framed Y) (clock env)
    clock-Framed env = Untouched-Framed _ (clock-Untouched env)

    pub set_locked-Framed : (b : Bool) → Keeps (Framed Y) (set_locked b)
    set_locked-Framed b = Untouched-Framed _ (set_locked-Untouched b)

  pub rollback-Framed : Keeps (Framed Anything) rollback
  unfolding rollback
  rollback-Framed = record { kept = λ w h. record { seen = h.seen; in_tx = tt } }
