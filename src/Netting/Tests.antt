-- ===== src/Netting/Tests.antt =====
-- Transfers that are netted.
use payments_engine.Base.{List, [], ◌∷◌, ◌≡◌, text}
use payments_engine.Base.Int.{ℤ, pos}
use payments_engine.Decimal.Scaled.{scaled}
use payments_engine.Netting.{net_positions}
use payments_engine.Netting.Flow.{txs_out, positions_out, net_positions-out}
use payments_engine.Transaction.Status.{Transaction}
use payments_engine.Transaction.Status.Tests.{fresh_tx}

-- one transfer of five from 1 to 2, and one of two back
abbrev there_and_back : List (Transaction ℤ)
there_and_back =
    fresh_tx
    ∷ record fresh_tx { id = 8; from_account_id = 2; to_account_id = 1; amount = pos 200000 }
    ∷ []

net_positions-out_example :
    positions_out 1 (text "GHS") (net_positions there_and_back)
    ≡ txs_out 1 (text "GHS") there_and_back
net_positions-out_example = net_positions-out 1 (text "GHS") there_and_back
