-- ===== src/Transfer/Posted.antt =====
-- A transfer that returns a row of its own has posted.
use payments_engine.Base.{true, none, Text, ◌≡◌, ap, Bool-cases, Option-cases, inl, inr}
use payments_engine.Error.{
  Error, is_error, duplicate_idempotency_key, transaction_not_found, no_rows, Result, ok, err,
}
use payments_engine.Decimal.{Decimals}
use payments_engine.Exec.{lift, ◌>>=◌}
use payments_engine.Exec.Ends.{Ends, Ends-err, Ends-pure, Ends-raise, Ends-try, Ends-try_at}
use payments_engine.Store.{Env, Session, statement, query, finish}
use payments_engine.Store.Tables.{Db}
use payments_engine.Transaction.Status.{Transaction}
use payments_engine.Transaction.Repository.{
  create_transaction, insert_transaction, insert_error, create_error, find_by_key,
  get_transaction_by_idempotency_key, or_no_rows,
}
use payments_engine.Transfer.Moves.{ledger_of}
use payments_engine.Transfer.Prepare.{
  Creation, created, existing, create_or_find, pending_transaction, as_existing,
}
use payments_engine.Transfer.Request.{TransferRequest, Config}
use payments_engine.World.Pool.{Ends-on_pool}
use payments_engine.World.{World, on_pool, back_to_pool}

-- no claim about what an error leaves
abbrev pub Any {ℓ} : {S : Type ℓ} → S → Type 0
Any s = Unit

module _ {D : Type 0} ⦃o : Decimals D⦄ (env : Env) where
  -- What the insertion of a transfer leaves: the ledger as it was, and every table where it is refused
  -- for its key. A failed call may have stored the row.
  abbrev IsUnposted : Db D → Result (Transaction D) × Session D → Type 0
  IsUnposted v (ok tx, t) = ledger_of t.db ≡ ledger_of v
  IsUnposted v (err e, t) = is_error e duplicate_idempotency_key ≡ true → t.db ≡ v

  inserted :
      (tx : Transaction D) (s : Session D) (v : Db D)
      → s.db ≡ v
      → IsUnposted v (finish s (insert_transaction env tx s.calls s.db))
  inserted tx s v h = elim (Option-cases (insert_error s.calls (env.fresh s.calls) tx s.db)) [
    | inl free ↦ rw (free, insert_transaction) (ap ledger_of h)
    | inr (x, refused) ↦ rw (refused, insert_transaction) (λ _. h)
  ]

  insert_outcome :
      (tx : Transaction D) (s : Session D) (v : Db D)
      → s.db ≡ v
      → IsUnposted v (statement env (insert_transaction env tx) s)
  unfolding statement
  insert_outcome tx s v h = elim (Bool-cases (env.fails s.calls)) [
    | inl down ↦ rw down (λ p. absurd (cc p))
    | inr up ↦ rw up (inserted tx s v h)
  ]

  after_insert :
      (v : Db D) (r : Result (Transaction D)) (t : Session D)
      → IsUnposted v (r, t)
      → IsUnposted v (lift (create_error r) t)
  unfolding lift
  after_insert v (ok tx) t h = h
  after_insert v (err e) t h = elim (Bool-cases (is_error e duplicate_idempotency_key)) [
    | inl same ↦ rw same (λ _. h same)
    | inr other ↦ rw other (λ p. h p)
  ]

  create_outcome :
      (tx : Transaction D) (s : Session D) (v : Db D)
      → s.db ≡ v
      → IsUnposted v (create_transaction env tx s)
  unfolding create_transaction ◌>>=◌
  create_outcome tx s v h = after_insert v _ _ (insert_outcome tx s v h)

  select_none :
      (key : Text) (s : Session D)
      → find_by_key key s.db.transactions ≡ none
      → Ends (λ _ _. ⊥) Any (query env (λ db. or_no_rows (find_by_key key db.transactions)) s)
  unfolding query statement
  select_none key s e = elim (Bool-cases (env.fails s.calls)) [
    | inl down ↦ rw down (Ends-err _ _ tt)
    | inr up ↦ rw (up, e) (Ends-err _ _ tt)
  ]

  no_row-Ends :
      (key : Text) (s : Session D)
      → find_by_key key s.db.transactions ≡ none
      → Ends (λ _ _. ⊥) Any (get_transaction_by_idempotency_key env key s)
  unfolding get_transaction_by_idempotency_key lift
  no_row-Ends key s e =
      Ends-try _ _ s (select_none key s e) (λ a t q. absurd q)
        λ f t q. elim (Bool-cases (is_error f no_rows)) [
          | inl missing ↦ rw missing (Ends-err _ t tt)
          | inr other ↦ rw other (Ends-err _ t tt)
        ]

module _ {D : Type 0} ⦃o : Decimals D⦄ (env : Env) (cfg : Config) (req : TransferRequest D)
    (v : Db D) (free : find_by_key req.idempotency_key v.transactions ≡ none) where
  abbrev pub IsNew : Creation D → World D → Type 0
  IsNew (created tx) w = ledger_of w.db ≡ ledger_of v
  IsNew (existing tx) w = ⊥

  abbrev Created : Result (Transaction D) × World D → Type 0
  Created (ok tx, u) = ledger_of u.db ≡ ledger_of v
  Created (err e, u) = is_error e duplicate_idempotency_key ≡ true → u.db ≡ v

  pooled :
      (w : World D) (x : Result (Transaction D) × Session D)
      → IsUnposted env v x
      → Created (back_to_pool w x)
  pooled w (ok tx, t) h = h
  pooled w (err e, t) h = h

  creation :
      (w : World D)
      → w.db ≡ v
      → Created (on_pool (create_transaction env (pending_transaction req)) w)
  unfolding on_pool
  creation w h = pooled w _ (create_outcome env (pending_transaction req) _ v h)

  look_up :
      (w : World D)
      → w.db ≡ v
      → Ends (λ _ _. ⊥) Any (on_pool (get_transaction_by_idempotency_key env req.idempotency_key) w)
  look_up w h =
      Ends-on_pool (λ _ _. ⊥) (λ _. Unit) _ w (no_row-Ends env req.idempotency_key _ (rw h free))

  refused : (e : Error) (w : World D) → Ends IsNew Any (lift (as_existing env cfg (err e)) w)
  unfolding lift
  refused e w = elim (Bool-cases (is_error e transaction_not_found)) [
    | inl missing ↦ rw missing (Ends-err _ w tt)
    | inr other ↦ rw other (Ends-err _ w tt)
  ]

  -- what was created is a row of this request
  pub create_or_find-Ends : (w : World D) → w.db ≡ v → Ends IsNew Any (create_or_find env cfg req w)
  unfolding create_or_find
  create_or_find-Ends w h =
      Ends-try_at Created _ _ w (creation w h) (λ tx w1 h1. Ends-pure (created tx) w1 h1)
        λ e w1 h1. elim (Bool-cases (is_error e duplicate_idempotency_key)) [
          | inl same ↦ rw same (
              Ends-try _ _ w1 (look_up w1 (h1 same)) (λ tx w2 q. absurd q) (λ f w2 q. refused f w2))
          | inr other ↦ rw other (Ends-raise _ w1 tt)
        ]
