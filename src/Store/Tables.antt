-- ===== src/Store/Tables.antt =====
-- The tables of migrations/ as lists of rows.
use payments_engine.Base.{ℕ, List, Option, Text}
use payments_engine.Account.{Account}
use payments_engine.Ledger.Entry.{EntryStatus, JournalEntryLine}
use payments_engine.Transaction.Status.{Transaction}

-- A row of journal_entries.
pub record EntryRow : Type 0 where
  pub id : ℕ
  pub transaction_id : Option ℕ
  pub reference : Text
  pub description : Text
  pub currency : Text
  pub status : EntryStatus
  pub posted_at : ℕ
  pub posted_by : Text

pub record Db (D : Type 0) : Type 0 where
  pub accounts : List (Account D)
  pub entries : List EntryRow
  pub lines : List (JournalEntryLine D)
  pub transactions : List (Transaction D)
