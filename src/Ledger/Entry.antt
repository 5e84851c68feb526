-- ===== src/Ledger/Entry.antt =====
-- internal/ledger/journal_entry.go.
use payments_engine.Base.{ℕ, Option, List, Text}

pub data EntryStatus : Type 0 where
  posted reversed unset : EntryStatus

-- A line's type is a string: `invalid` is any that is neither of the constants.
pub data LineType : Type 0 where
  debit credit : LineType
  invalid : Text → LineType

pub record JournalEntryLine (D : Type 0) : Type 0 where
  pub id : ℕ
  pub entry_id : ℕ
  pub account_id : ℕ
  pub type : LineType
  pub amount : D
  pub description : Text
  pub sequence : ℕ

-- `posted_at` is `none` for Go's zero time.
pub record JournalEntry (D : Type 0) : Type 0 where
  pub id : ℕ
  pub transaction_id : ℕ
  pub reference : Text
  pub description : Text
  pub currency : Text
  pub status : EntryStatus
  pub lines : List (JournalEntryLine D)
  pub posted_at : Option ℕ
  pub posted_by : Text
