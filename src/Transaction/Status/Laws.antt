-- ===== src/Transaction/Status/Laws.antt =====
-- The transitions that internal/transaction/transaction.go accepts, against the diagram that they
-- draw.
use payments_engine.Base.{ℕ, ◌≡◌, ◌↔◌, refl, sym, ap, ◌∙◌, arith}
use payments_engine.Error.{ok}
use payments_engine.Transaction.Status.{
  TxStatus, pending, processing, settled, failed, reversed, expired, reconciled, Transaction,
  transition_to,
}

infix 40 ◌⟶◌
pub data ◌⟶◌ : TxStatus → TxStatus → Type 0 where
  start : pending ⟶ processing
  refuse : pending ⟶ failed
  expire : pending ⟶ expired
  settle : processing ⟶ settled
  abort : processing ⟶ failed
  reverse : settled ⟶ reversed
  reconcile : settled ⟶ reconciled

ruleset edges = (start, refuse, expire, settle, abort, reverse, reconcile)

module _ {D : Type 0} where
  follows :
      (now : ℕ) (next s : TxStatus) (tx u : Transaction D)
      → tx.status ≡ s
      → transition_to now next tx ≡ ok u
      → s ⟶ next
  unfolding transition_to
  follows now next s tx u e h = grind (arith, edges)

  changes :
      (now : ℕ) (next : TxStatus) (tx u : Transaction D)
      → transition_to now next tx ≡ ok u
      → u ≡ record tx { status = next; updated_at = now }
  unfolding transition_to
  changes now next tx u h = ground arith

  accepts :
      (now : ℕ) {s next : TxStatus} (tx : Transaction D)
      → s ⟶ next
      → tx.status ≡ s
      → transition_to now next tx ≡ ok (record tx { status = next; updated_at = now })
  unfolding transition_to
  accepts now tx start e = ground arith
  accepts now tx refuse e = ground arith
  accepts now tx expire e = ground arith
  accepts now tx settle e = ground arith
  accepts now tx abort e = ground arith
  accepts now tx reverse e = ground arith
  accepts now tx reconcile e = ground arith

  -- TransitionTo follows the diagram and nothing else: it returns `u` exactly when there is an edge
  -- from the present state to the next one and `u` is the transfer with the next state and the time
  -- of the update, and nothing else of it changed.
  pub transition_to-⟶ :
      (now : ℕ) (next : TxStatus) (tx u : Transaction D)
      → (transition_to now next tx ≡ ok u)
        ↔ ((tx.status ⟶ next) × (u ≡ record tx { status = next; updated_at = now }))
  transition_to-⟶ now next tx u = (
    λ h. (follows now next tx.status tx u refl h, changes now next tx u h),
    λ h. accepts now tx h.0 refl ∙ ap ok (sym h.1),
  )
