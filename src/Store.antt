-- ===== src/Store.antt =====
-- The database: the tables of the migrations, one connection's view of them, and the statements
-- that the repositories run. PostgreSQL itself is not part of the repository; what the code sees of
-- it is the outcome of each call, in the order of the calls.
pub mod Tables
use payments_engine.Base.{ℕ, suc, Bool, true, false, Option, none, some, if◌then◌else◌}
use payments_engine.Error.{Error, driver, Result, ok, err}
use payments_engine.Exec.{Exec}
use payments_engine.Store.Tables.{Db}

-- What the environment decides at the n-th call: whether it fails with an error of the driver,
-- whether a commit or a statement that reports an error has taken effect all the same, the time, and the
-- identifier that gen_random_uuid() makes, and whether the key of an idempotency store has outlived
-- its time to live.
pub record Env : Type 0 where
  pub fails : ℕ → Bool
  pub landed : ℕ → Bool
  pub now : ℕ → ℕ
  pub fresh : ℕ → ℕ
  pub lapsed : ℕ → Bool

-- The tables as a statement sees them, and the number of calls made so far.
pub record Session (D : Type 0) : Type 0 where
  pub db : Db D
  pub calls : ℕ

module _ {D A : Type 0} where
  abbrev pub finish : Session D → Result A × Db D → Result A × Session D
  finish s (r, db) = (r, record { db = db; calls = suc s.calls })

  -- One statement, on a pool or in a transaction alike. `f` gets the number of the call. A statement
  -- that reports an error may have taken effect, when only the answer was lost.
  unfoldable pub statement : Env → (ℕ → Db D → Result A × Db D) → Exec (Session D) A
  statement env f s =
      if env.fails s.calls
      then (
        err (driver s.calls),
        record {
          db = if env.landed s.calls then (f s.calls s.db).1 else s.db;
          calls = suc s.calls;
        },
      )
      else finish s (f s.calls s.db)

  -- A statement that only reads.
  unfoldable pub query : Env → (Db D → Result A) → Exec (Session D) A
  query env f s =
      if env.fails s.calls
      then (err (driver s.calls), record s { calls = suc s.calls })
      else finish s (f s.db, s.db)
