-- ===== src/Entries.antt =====
-- PostJournalEntry of internal/ledger/ledger.go and InsertJournalEntry of
-- internal/ledger/repository.go: an entry that is posted in a database transaction of its own.
pub mod Atomic
mod Tests
use payments_engine.Base.{ℕ, text}
use payments_engine.Decimal.{Decimals}
use payments_engine.Exec.{Exec, pure, lift, within, ◌>>=◌, ◌>>◌}
use payments_engine.Ledger.Entry.{JournalEntry}
use payments_engine.Ledger.Posting.{check_balanced}
use payments_engine.Ledger.Repository.{insert_journal_entry_tx}
use payments_engine.Store.{Env}
use payments_engine.World.{World, begin_tx, on_tx, commit, rollback, deferred}

module _ {D : Type 0} ⦃o : Decimals D⦄ (env : Env) where
  abbrev pub insert_and_commit : JournalEntry D → Exec (World D) ℕ
  insert_and_commit entry = do
    id ← on_tx (insert_journal_entry_tx env entry)
    within (text "commit") (commit env)
    pure id

  unfoldable pub insert_journal_entry : JournalEntry D → Exec (World D) ℕ
  insert_journal_entry entry = do
    within (text "begin tx") (begin_tx env)
    deferred rollback (insert_and_commit entry)

  unfoldable pub post_journal_entry : JournalEntry D → Exec (World D) ℕ
  post_journal_entry entry = do lift (check_balanced entry); insert_journal_entry entry
