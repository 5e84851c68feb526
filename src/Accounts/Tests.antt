-- ===== src/Accounts/Tests.antt =====
-- Accounts that are opened and frozen.
use payments_engine.Base.{true, ◌≡◌, ◌⊎◌, text}
use payments_engine.Base.Int.{ℤ}
use payments_engine.Decimal.Scaled.{scaled}
use payments_engine.Account.{Account, AccountType, frozen}
use payments_engine.Accounts.Laws.{update_account_status-IsRestated}
use payments_engine.Accounts.Restate.{IsRestated}
use payments_engine.Accounts.Open.{IsOpened, create_account-IsOpened}
use payments_engine.Accounts.Service.{CreateAccountInput, create_account, update_account_status}
use payments_engine.Exec.Ends.{Ends}
use payments_engine.Ledger.Equation.{net_debit}
use payments_engine.Ledger.Sound.{IsSound}
use payments_engine.Ledger.Tests.{calm, chart, chart-IsSound}
use payments_engine.Transfer.Tests.{world}
use payments_engine.World.{World}
use payments_engine.World.Pool.{IsLost}

abbrev wallet : CreateAccountInput
wallet = record { name = text " Ama "; type = AccountType.liability; currency = text "GHS" }

create_account-IsOpened_example :
    Ends
      (λ b u.
        IsOpened wallet world.db b u.db
        × IsSound u.db.accounts
        × (net_debit u.db.accounts ≡ net_debit chart))
      (λ (u : World ℤ).
        (u.db ≡ world.db)
        ⊎ IsLost calm (
            (b : Account ℤ) × IsOpened wallet world.db b u.db
            × IsSound u.db.accounts
            × (net_debit u.db.accounts ≡ net_debit chart)))
      (create_account calm true (text "0A1B2C3D") wallet world)
create_account-IsOpened_example =
    create_account-IsOpened calm true (text "0A1B2C3D") wallet world chart-IsSound

update_account_status-IsRestated_example :
    Ends
      (λ b u. IsRestated 11 frozen world.db b u.db)
      (λ (u : World ℤ).
        (u.db ≡ world.db) ⊎ IsLost calm ((b : Account ℤ) × IsRestated 11 frozen world.db b u.db))
      (update_account_status calm true 11 frozen world)
update_account_status-IsRestated_example =
    update_account_status-IsRestated calm true 11 frozen world
