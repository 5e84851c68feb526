-- ===== src/Settlement.antt =====
-- internal/settlement/batch_processor.go: the settlement of a day's transfers, in one database
-- transaction.
pub mod Rows
pub mod Day
pub mod Run
pub mod Laws
mod Tests
use payments_engine.Base.{
  ℕ, not, List, [], ◌∷◌, Option, Text, text, ◌==◌, nat_eq, length, if◌then◌else◌,
}
use payments_engine.Error.{message, ok, err}
use payments_engine.Decimal.{Decimals}
use payments_engine.Exec.{Exec, pure, lift, within, ◌>>=◌, ◌>>◌}
use payments_engine.Netting.{NetPosition, net_positions}
use payments_engine.Store.{Env}
use payments_engine.Transaction.Settled.{
  Location, settlement_day_bounds, list_settled_for_settlement_day, bulk_update_status,
}
use payments_engine.Transaction.Status.{Transaction, settled, reconciled}
use payments_engine.World.{World, begin_tx, on_tx, commit, rollback, deferred}

pub record NettingResult (D : Type 0) : Type 0 where
  pub day : ℕ
  pub location : Option Location
  pub currency_filter : Text
  pub positions : List (NetPosition D)
  pub reconciled_count : ℕ

module _ {D : Type 0} where
  abbrev pub ids_of : List (Transaction D) → List ℕ
  ids_of [] = []
  ids_of (tx ∷ txs) = tx.id ∷ ids_of txs

  -- the end of RunDailyNetting: an empty list is committed at once
  unfoldable pub mark_reconciled :
      Env → List (Transaction D) → NettingResult D → Exec (World D) (NettingResult D)
  mark_reconciled env [] res = do within (text "commit empty settlement") (commit env); pure res
  mark_reconciled env (tx ∷ txs) res = do
    n ← on_tx (bulk_update_status env (ids_of (tx ∷ txs)) settled reconciled)
    lift (
        if not (n == length (tx ∷ txs))
        then err (message (text "expected rows reconciled"))
        else ok tt)
    within (text "commit settlement") (commit env)
    pure res

module _ {D : Type 0} ⦃o : Decimals D⦄ where
  abbrev pub netting_result : ℕ → Option Location → Text → List (Transaction D) → NettingResult D
  netting_result day loc currency txs = record {
    day = (settlement_day_bounds day loc).0;
    location = loc;
    currency_filter = currency;
    positions = net_positions txs;
    reconciled_count = length txs;
  }

  abbrev pub net_and_mark : Env → ℕ → Option Location → Text → Exec (World D) (NettingResult D)
  net_and_mark env day loc currency = do
    txs ← on_tx (list_settled_for_settlement_day env day loc currency)
    mark_reconciled env txs (netting_result day loc currency txs)

  unfoldable pub run_daily_netting :
      Env → ℕ → Option Location → Text → Exec (World D) (NettingResult D)
  run_daily_netting env day loc currency = do
    within (text "begin settlement tx") (begin_tx env)
    deferred rollback (net_and_mark env day loc currency)
