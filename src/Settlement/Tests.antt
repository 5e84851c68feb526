-- ===== src/Settlement/Tests.antt =====
-- A day with two transfers, and the day on which the clocks go back.
use payments_engine.Base.{
  ℕ, ◌+◌, ◌*◌, ◌≤◌, ◌<◌, none, some, [], ◌∷◌, ◌≡◌, refl, text, ltb, arith, if◌then◌else◌,
}
use payments_engine.Base.Int.{ℤ, pos, ◌+ℤ◌, ◌-ℤ◌, abs_ℤ}
use payments_engine.Error.{ok}
use payments_engine.Decimal.Scaled.{scaled}
use payments_engine.Exec.{◌>>=◌, pure, raise, lift, within, try}
use payments_engine.Exec.Ends.{Ends}
use payments_engine.Ledger.Tests.{calm}
use payments_engine.Netting.{net_positions, collect_nets}
use payments_engine.Settlement.{NettingResult, run_daily_netting, mark_reconciled}
use payments_engine.Settlement.Laws.{
  IsReconciled, run_daily_netting_again, run_daily_netting_returns,
}
use payments_engine.Store.{query, statement}
use payments_engine.Transaction.Settled.{
  Location, settlement_day_bounds, day_length, list_settled_for_settlement_day,
  list_settled_between, bulk_update_status,
}
use payments_engine.Transaction.Settled.Bounds.{fixed, settlement_day_bounds-fixed}
use payments_engine.Transaction.Status.{settled}
use payments_engine.Transaction.Status.Tests.{fresh_tx}
use payments_engine.Transfer.Tests.{world}
use payments_engine.World.{World, begin_tx, on_tx, commit, rollback, deferred}

abbrev noon : ℕ
noon = 10 * day_length + 43200000000

-- one transfer of five from 1 to 2 and one of two back at noon, and one that is not settled
abbrev busy : World ℤ
busy = record world {
  db = record world.db {
    transactions =
        record fresh_tx { status = settled; settled_at = some (noon + 1) }
        ∷ record fresh_tx {
          id = 8;
          from_account_id = 2;
          to_account_id = 1;
          amount = pos 200000;
          status = settled;
          settled_at = some noon;
        }
        ∷ record fresh_tx { id = 9 }
        ∷ [];
  };
}

abbrev reported : NettingResult ℤ
reported = record {
  day = 10 * day_length;
  location = none;
  currency_filter = [];
  positions =
      record {
        from_account_id = 1;
        to_account_id = 2;
        currency = text "GHS";
        net_amount = pos 300000;
        transaction_count = 2;
      }
      ∷ [];
  reconciled_count = 2;
}

abbrev closed : World ℤ
closed = (run_daily_netting calm noon none [] busy).1

run_daily_netting_ok : run_daily_netting calm noon none [] busy ≡ (ok reported, closed)
unfolding run_daily_netting mark_reconciled ◌>>=◌ pure raise lift within try begin_tx on_tx commit
    rollback deferred query statement settlement_day_bounds list_settled_for_settlement_day
    list_settled_between bulk_update_status net_positions collect_nets ◌+ℤ◌ ◌-ℤ◌ abs_ℤ
run_daily_netting_ok = refl

run_daily_netting_again_example :
    Ends
      (λ (r : NettingResult ℤ) (x : World ℤ).
        (r.reconciled_count ≡ 0) × (r.positions ≡ []) × (x.db ≡ closed.db))
      (λ x. x.db ≡ closed.db)
      (run_daily_netting calm noon none [] closed)
run_daily_netting_again_example =
    run_daily_netting_again calm calm noon none [] busy closed closed reported run_daily_netting_ok
      refl

run_daily_netting_returns_example :
    (r : NettingResult ℤ) × (u : World ℤ) × (run_daily_netting calm noon none [] busy ≡ (ok r, u))
    × IsReconciled calm noon none [] busy.db r u.db
run_daily_netting_returns_example =
    run_daily_netting_returns calm noon none [] busy (λ n. refl) (refl, (refl, (refl, tt)))

settlement_day_bounds-fixed_example :
    ((settlement_day_bounds noon (some (fixed (pos 3600000000)))).0 ≤ noon)
    × (noon < (settlement_day_bounds noon (some (fixed (pos 3600000000)))).1)
    × ((settlement_day_bounds noon (some (fixed (pos 3600000000)))).1
        ≡ (settlement_day_bounds noon (some (fixed (pos 3600000000)))).0 + 86400000000)
    × (settlement_day_bounds (noon + 1) (some (fixed (pos 3600000000)))
        ≡ settlement_day_bounds noon (some (fixed (pos 3600000000))))
unfolding settlement_day_bounds
settlement_day_bounds-fixed_example =
    settlement_day_bounds-fixed (pos 3600000000) noon (noon + 1) (omega arith) (omega arith)
      (omega arith) (omega arith)

-- The clocks of this zone go from two hours ahead back to one hour ahead at one o'clock UTC of day 20,
-- so that its day 20 is twenty-five hours long.
abbrev autumn : Location
autumn = record {
  offset = λ t. if ltb t (20 * day_length + 3600000000) then pos 7200000000 else pos 3600000000;
}

-- half past eleven in the evening of that day, by the clocks of the zone
abbrev late : ℕ
late = 20 * day_length + 22 * 3600000000 + 1800000000

-- The bounds for that instant end half an hour before it.
late_outside : (settlement_day_bounds late (some autumn)).1 + 1800000000 ≡ late
unfolding settlement_day_bounds
late_outside = refl

-- The next day begins half an hour after it.
next_day_later : late + 1800000000 ≡ (settlement_day_bounds (late + 7200000000) (some autumn)).0
unfolding settlement_day_bounds
next_day_later = refl
