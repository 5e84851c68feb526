-- ===== src/World/Tx.antt =====
-- A database transaction, step by step: what its view of the tables is, what the committed tables
-- are, and what has to have happened for a step to report an error.
use payments_engine.Base.{ℕ, suc, true, none, some, if◌then◌else◌, ◌≡◌, refl, Bool-cases, inl, inr}
use payments_engine.Error.{Result, ok, err}
use payments_engine.Exec.{Exec}
use payments_engine.Exec.Ends.{Ends, Ends_ok, Ends_err, Ends-ok, Ends-err}
use payments_engine.Store.{Env, Session, statement, query}
use payments_engine.Store.Tables.{Db}
use payments_engine.World.{
  World, begin_tx, on_tx, commit, rollback, deferred, after_defer, back_to_tx, publish,
}

-- `X` holds where an error may be reported; a call that fails is such a case.
module _ {D : Type 0} (env : Env) (X : Type 0) (cause : (n : ℕ) → env.fails n ≡ true → X) where
  pub statement-Ends :
      {A : Type 0} (g : ℕ → Db D → A) (h : ℕ → Db D → Db D) (s : Session D)
      → Ends
          (λ a (t : Session D). (a ≡ g s.calls s.db) × (t.db ≡ h s.calls s.db))
          (λ _. X)
          (statement env (λ n db. (ok (g n db), h n db)) s)
  unfolding statement
  statement-Ends g h s = elim (Bool-cases (env.fails s.calls)) [
    | inl down ↦ rw down (Ends-err _ _ (cause s.calls down))
    | inr up ↦ rw up (Ends-ok _ _ (refl, refl))
  ]

  pub query-Ends :
      {A : Type 0} (g : Db D → A) (s : Session D)
      → Ends
          (λ a (t : Session D). (a ≡ g s.db) × (t.db ≡ s.db))
          (λ _. X)
          (query env (λ db. ok (g db)) s)
  unfolding query
  query-Ends g s = elim (Bool-cases (env.fails s.calls)) [
    | inl down ↦ rw down (Ends-err _ _ (cause s.calls down))
    | inr up ↦ rw up (Ends-ok _ _ (refl, refl))
  ]

  module _ (P : Db D → Type 0) where
    -- the committed tables are as `P` says, and those in the open transaction as `L` says
    pub record Inside (L : Db D → Type 0) (w : World D) : Type 0 where
      pub seen : P w.db
      pub view : Db D
      pub is_open : w.open_tx ≡ some view
      pub holds : L view

    abbrev pub Broken : World D → Type 0
    Broken w = X × P w.db

    pub tx_begin :
        (w : World D) → P w.db → Ends (λ _. Inside (λ v. v ≡ w.db)) Broken (begin_tx env w)
    unfolding begin_tx
    tx_begin w h = elim (Bool-cases (env.fails w.calls)) [
      | inl down ↦ rw down (Ends-err _ _ (cause w.calls down, h))
      | inr up ↦
          rw up (Ends-ok tt _ (record { seen = h; view = w.db; is_open = refl; holds = refl }))
    ]

    step_back :
        {A : Type 0} (L : A → Db D → Type 0) (w : World D) (x : Result A × Session D)
        → P w.db
        → Ends (λ a (t : Session D). L a t.db) (λ _. X) x
        → Ends (λ a. Inside (L a)) Broken (back_to_tx w x)
    step_back L w (ok a, s) p h =
        Ends-ok a _ (record { seen = p; view = s.db; is_open = refl; holds = Ends_ok a s h refl })
    step_back L w (err e, s) p h = Ends-err e _ (Ends_err e s h refl, p)

    pub tx_step :
        {A : Type 0} (L : Db D → Type 0) (L' : A → Db D → Type 0) (m : Exec (Session D) A)
        (w : World D)
        → Inside L w
        → ((s : Session D) → L s.db → Ends (λ a (t : Session D). L' a t.db) (λ _. X) (m s))
        → Ends (λ a. Inside (L' a)) Broken (on_tx m w)
    unfolding on_tx
    tx_step L L' m w h k =
        rw h.is_open (step_back L' w _ h.seen (k (record { db = h.view; calls = w.calls }) h.holds))

    lost_reply :
        (L : Db D → Type 0) (w : World D)
        → Inside L w
        → ((db : Db D) → L db → P db)
        → P
            (if env.landed w.calls
              then publish w w.open_tx
              else record w { calls = suc w.calls; open_tx = none }).db
    lost_reply L w h k = elim (Bool-cases (env.landed w.calls)) [
      | inl took ↦ rw (took, h.is_open) (k _ h.holds)
      | inr lost ↦ rw lost h.seen
    ]

    -- a commit that reports an error may have taken effect
    pub tx_commit :
        (L : Db D → Type 0) (w : World D)
        → Inside L w
        → ((db : Db D) → L db → P db)
        → Ends (λ _ (u : World D). L u.db) Broken (commit env w)
    unfolding commit
    tx_commit L w h k = elim (Bool-cases (env.fails w.calls)) [
      | inl down ↦ rw down (Ends-err _ _ (cause w.calls down, lost_reply L w h k))
      | inr up ↦ rw (up, h.is_open) (Ends-ok tt _ h.holds)
    ]

module _ {D A : Type 0} (Q : A → Db D → Type 0) (E : Db D → Type 0) where
  rolled_back :
      (x : Result A × World D)
      → Ends (λ a (u : World D). Q a u.db) (λ u. E u.db) x
      → Ends (λ a (u : World D). Q a u.db) (λ u. E u.db) (after_defer x.0 (rollback x.1))
  unfolding rollback
  rolled_back (ok a, w) h = Ends-ok a _ (Ends_ok a w h refl)
  rolled_back (err e, w) h = Ends-err e _ (Ends_err e w h refl)

  -- the deferred rollback leaves the committed tables alone
  pub rollback-Ends :
      (m : Exec (World D) A) (w : World D)
      → Ends (λ a (u : World D). Q a u.db) (λ u. E u.db) (m w)
      → Ends (λ a (u : World D). Q a u.db) (λ u. E u.db) (deferred rollback m w)
  unfolding deferred
  rollback-Ends m w h = rolled_back (m w) h
