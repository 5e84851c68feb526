-- ===== src/Ledger/Reports/Tests.antt =====
-- The reports on the journal of one entry.
use payments_engine.Base.{true, none, some, List, ◌≡◌, refl, text}
use payments_engine.Base.Int.{ℤ}
use payments_engine.Error.{ok, err, sentinel, ledger_account_not_found}
use payments_engine.Decimal.Scaled.{scaled}
use payments_engine.Exec.Ends.{Ends}
use payments_engine.Account.{Account}
use payments_engine.Ledger.Reports.{AccountEntryRow, get_account_entries}
use payments_engine.Ledger.TrialBalance.{get_trial_balance}
use payments_engine.Ledger.Reports.History.{IsHistory, get_account_entries-IsHistory}
use payments_engine.Ledger.Reports.Kept.{post_journal_entry_tx-IsBook}
use payments_engine.Ledger.Reports.Trial.{IsBook, IsTrial, Failed, get_trial_balance-IsTrial}
use payments_engine.Ledger.Repository.{find_account}
use payments_engine.Ledger.Tests.{calm, an_entry, before, after, posted_ok}
use payments_engine.Store.{Session}

empty-IsBook : IsBook before.db
empty-IsBook = record {
  unique = (refl, (refl, (refl, tt)));
  known = tt;
  placed = tt;
  sums = λ currency. refl;
}

pub after-IsBook : IsBook after.db
after-IsBook =
    post_journal_entry_tx-IsBook calm an_entry before after 1 empty-IsBook (refl, (refl, tt)) refl
      posted_ok

post_journal_entry_tx-IsBook_example : IsBook after.db
post_journal_entry_tx-IsBook_example =
    post_journal_entry_tx-IsBook calm an_entry before after 1 empty-IsBook (refl, (refl, tt)) refl
      posted_ok

get_trial_balance-IsTrial_example :
    Ends
      (λ tb (t : Session ℤ). (t.db ≡ after.db) × IsTrial (text "GHS") after.db tb)
      (λ _. Failed calm)
      (get_trial_balance calm true (text "GHS") after)
get_trial_balance-IsTrial_example = get_trial_balance-IsTrial calm (text "GHS") after after-IsBook

get_account_entries-IsHistory_example :
    ((a : Account ℤ)
      → find_account 11 after.db.accounts ≡ some a
      → (rows : List (AccountEntryRow ℤ)) × (t : Session ℤ) × (get_account_entries calm true 11
            after
          ≡ (ok rows, t))
        × (t.db ≡ after.db)
        × IsHistory after.db 11 rows)
    × (find_account 11 after.db.accounts ≡ none
        → (t : Session ℤ) × (get_account_entries calm true 11 after
            ≡ (err (sentinel ledger_account_not_found), t))
          × (t.db ≡ after.db))
get_account_entries-IsHistory_example =
    get_account_entries-IsHistory calm 11 after (λ n. refl) after-IsBook
