-- ===== src/Entries/Tests.antt =====
-- An entry that is posted by itself.
use payments_engine.Base.Int.{ℤ}
use payments_engine.Decimal.Scaled.{scaled}
use payments_engine.Entries.{post_journal_entry}
use payments_engine.Entries.Atomic.{HasEntry, NoneOrLanded, post_journal_entry-Ends}
use payments_engine.Exec.Ends.{Ends}
use payments_engine.Ledger.Tests.{calm, an_entry}
use payments_engine.Transfer.Moves.{ledger_of}
use payments_engine.Transfer.Tests.{world}
use payments_engine.World.{World}

post_journal_entry-Ends_example :
    Ends
      (λ id (u : World ℤ). HasEntry calm an_entry (ledger_of world.db) id (ledger_of u.db))
      (λ (u : World ℤ). NoneOrLanded calm an_entry (ledger_of world.db) (ledger_of u.db))
      (post_journal_entry calm an_entry world)
post_journal_entry-Ends_example = post_journal_entry-Ends calm an_entry world
