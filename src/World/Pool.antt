-- ===== src/World/Pool.antt =====
-- What a statement on the pool leaves in the world.
use payments_engine.Base.{ℕ, true, ◌≡◌, refl}
use payments_engine.Error.{Result, ok, err}
use payments_engine.Exec.{Exec}
use payments_engine.Exec.Ends.{Ends, Ends_ok, Ends_err, Ends-ok, Ends-err}
use payments_engine.Store.{Env, Session}
use payments_engine.Store.Tables.{Db}
use payments_engine.World.{World, on_pool, back_to_pool}

-- a call that failed has done its work all the same, and only its answer was lost
pub record IsLost (env : Env) (X : Type 0) : Type 0 where
  pub call : ℕ
  pub down : env.fails call ≡ true
  pub took : env.landed call ≡ true
  pub done : X

module _ {D A : Type 0} (Q : A → Db D → Type 0) (E : Db D → Type 0) where
  Ends-back_to_pool :
      (w : World D) (x : Result A × Session D)
      → Ends (λ a t. Q a t.db) (λ t. E t.db) x
      → Ends (λ a u. Q a u.db) (λ u. E u.db) (back_to_pool w x)
  Ends-back_to_pool w (ok a, s) h = Ends-ok a _ (Ends_ok a s h refl)
  Ends-back_to_pool w (err e, s) h = Ends-err e _ (Ends_err e s h refl)

  pub Ends-on_pool :
      (m : Exec (Session D) A) (w : World D)
      → Ends (λ a t. Q a t.db) (λ t. E t.db) (m (record { db = w.db; calls = w.calls }))
      → Ends (λ a u. Q a u.db) (λ u. E u.db) (on_pool m w)
  unfolding on_pool
  Ends-on_pool m w h = Ends-back_to_pool w _ h
