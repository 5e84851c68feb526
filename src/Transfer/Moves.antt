-- ===== src/Transfer/Moves.antt =====
-- The open transaction of a transfer, step by step: what the ledger's tables are after the clearing
-- entry, after the settlement entry, and once they are committed.
use payments_engine.Base.{
  ℕ, true, Option, none, some, suc, if◌then◌else◌, [], ◌≡◌, refl, Bool-cases, inl, inr,
}
use payments_engine.Error.{Result, ok, err}
use payments_engine.Decimal.{Decimals}
use payments_engine.Exec.{Exec}
use payments_engine.Exec.Keeps.{Keeps}
use payments_engine.Exec.Success.{After, After_at, After-Keeps, After-last}
use payments_engine.Exec.Ends.{Ends, Ends-ok, Ends-err, Ends-weaken, Ends-Keeps}
use payments_engine.Ledger.Effect.{IsPosted}
use payments_engine.Store.{Env, Session}
use payments_engine.Store.Tables.{Db}
use payments_engine.Transfer.Frame.{Framed, Shows, Anything}
use payments_engine.Transfer.Request.{TransferRequest, Config}
use payments_engine.Transfer.Legs.{clearing_entry, settlement_entry}
use payments_engine.World.{publish, World, begin_tx, on_tx, commit, back_to_tx}

module _ {D : Type 0} where
  -- the tables of internal/ledger: everything but the transfers' own rows
  abbrev pub ledger_of : Db D → Db D
  ledger_of db = record db { transactions = [] }

  -- The tables `after` are the tables `before` with the two entries of the transfer posted: the
  -- clearing entry, then the settlement entry.
  pub record IsTransferred ⦃o : Decimals D⦄ (env : Env) (cfg : Config) (req : TransferRequest D)
      (before after : Db D) : Type 0 where
    pub tx_id : ℕ
    pub clearing_id : ℕ
    pub first_id : ℕ
    pub second_id : ℕ
    pub start : Session D
    pub cleared : Session D
    pub resumed : Session D
    pub end : Session D
    pub start_eq : ledger_of start.db ≡ before
    pub first : IsPosted env (clearing_entry cfg req tx_id clearing_id) start first_id cleared
    pub resumed_eq : ledger_of resumed.db ≡ ledger_of cleared.db
    pub second : IsPosted env (settlement_entry cfg req tx_id clearing_id) resumed second_id end
    pub end_eq : after ≡ ledger_of end.db

  -- there is an open transaction, and the ledger in it is as `L` says
  pub record InTx (L : Db D → Type 0) (open_tx : Option (Db D)) : Type 0 where
    pub view : Db D
    pub is_open : open_tx ≡ some view
    pub inside : L (ledger_of view)

module _ {D : Type 0} (P : Db D → Type 0) where
  abbrev pub In : (Db D → Type 0) → World D → Type 0
  In L = Framed ledger_of P (InTx L)

  abbrev pub Out : World D → Type 0
  Out = Framed ledger_of P Anything

  leave : (L : Db D → Type 0) (w : World D) → In L w → Out w
  leave L w h = record { seen = h.seen; in_tx = tt }

  -- a step that leaves the open transaction alone
  pub aside :
      {A : Type 0} (L : Db D → Type 0) (m : Exec (World D) A) (w : World D)
      → Keeps (In L) m
      → In L w
      → Ends (λ _. In L) Out (m w)
  aside L m w k h = Ends-weaken (Ends-Keeps (In L) m w k h) (λ a s q. q) (leave L)

  Ends-back_to_tx :
      {A : Type 0} (L : A → Db D → Type 0) (w : World D) (x : Result A × Session D)
      → P (ledger_of w.db)
      → After (λ a t. L a (ledger_of t.db)) x
      → Ends (λ a. In (L a)) Out (back_to_tx w x)
  Ends-back_to_tx L w (ok a, s) p h = Ends-ok a _ (record {
    seen = p;
    in_tx = record { view = s.db; is_open = refl; inside = After_at h refl };
  })
  Ends-back_to_tx L w (err e, s) p h = Ends-err e _ (record { seen = p; in_tx = tt })

  -- a statement in the open transaction, and what it returns
  pub on_tx-Ends_at :
      {A : Type 0} (L : Db D → Type 0) (L' : A → Db D → Type 0) (m : Exec (Session D) A)
      (w : World D)
      → In L w
      → ((s : Session D) → L (ledger_of s.db) → After (λ a t. L' a (ledger_of t.db)) (m s))
      → Ends (λ a. In (L' a)) Out (on_tx m w)
  unfolding on_tx
  on_tx-Ends_at L L' m w h k = rw h.in_tx.is_open (
      Ends-back_to_tx L' w _ h.seen
        (k (record { db = h.in_tx.view; calls = w.calls }) h.in_tx.inside))

  -- a statement in the open transaction
  pub on_tx-Ends :
      {A : Type 0} (L L' : Db D → Type 0) (m : Exec (Session D) A) (w : World D)
      → In L w
      → ((s : Session D) → L (ledger_of s.db) → After (λ _ t. L' (ledger_of t.db)) (m s))
      → Ends (λ _. In L') Out (on_tx m w)
  on_tx-Ends L L' m w h k = on_tx-Ends_at L (λ _. L') m w h k

  -- a statement in the open transaction that does not touch the ledger
  pub on_tx-Shows :
      {A : Type 0} (L : Db D → Type 0) (m : Exec (Session D) A) (w : World D)
      → Keeps (Shows ledger_of L) m
      → In L w
      → Ends (λ _. In L) Out (on_tx m w)
  on_tx-Shows L m w k h =
      on_tx-Ends L L m w h
        λ s l. After-last (After-Keeps m s k (record { shown = l })) λ a t q. q.shown

  pub begin_tx-Ends :
      (env : Env) (L : Db D → Type 0) (w : World D)
      → Out w
      → L (ledger_of w.db)
      → Ends (λ _. In L) Out (begin_tx env w)
  unfolding begin_tx
  begin_tx-Ends env L w h l = elim (Bool-cases (env.fails w.calls)) [
    | inl down ↦ rw down (Ends-err _ _ (record { seen = h.seen; in_tx = tt }))
    | inr up ↦ rw up (
        Ends-ok tt _
          (record { seen = h.seen; in_tx = record { view = w.db; is_open = refl; inside = l } }))
  ]

  -- a commit that reports an error may have taken effect
  lost_reply :
      (env : Env) (L : Db D → Type 0) (w : World D)
      → In L w
      → (env.landed w.calls ≡ true → (db : Db D) → L db → P db)
      → Out (
          if env.landed w.calls
          then publish w w.open_tx
          else record w { calls = suc w.calls; open_tx = none })
  lost_reply env L w h k = elim (Bool-cases (env.landed w.calls)) [
    | inl took ↦ rw (took, h.in_tx.is_open) (record { seen = k took _ h.in_tx.inside; in_tx = tt })
    | inr lost ↦ rw lost (record { seen = h.seen; in_tx = tt })
  ]

  -- A commit that reports no error has taken effect; one that reports an error and takes effect is a
  -- call that fails and lands.
  pub commit_landed-Ends :
      (env : Env) (L : Db D → Type 0) (w : World D)
      → In L w
      → ((n : ℕ) → env.fails n ≡ true → env.landed n ≡ true → (db : Db D) → L db → P db)
      → Ends (λ _. Framed ledger_of L Anything) Out (commit env w)
  unfolding commit
  commit_landed-Ends env L w h k = elim (Bool-cases (env.fails w.calls)) [
    | inl down ↦ rw down (Ends-err _ _ (lost_reply env L w h (k w.calls down)))
    | inr up ↦
        rw (up, h.in_tx.is_open) (Ends-ok tt _ (record { seen = h.in_tx.inside; in_tx = tt }))
  ]

  -- whatever a commit did that reported an error
  pub commit-Ends :
      (env : Env) (L : Db D → Type 0) (w : World D)
      → In L w
      → ((db : Db D) → L db → P db)
      → Ends (λ _. Framed ledger_of L Anything) Out (commit env w)
  commit-Ends env L w h k = commit_landed-Ends env L w h (λ n down took. k)
