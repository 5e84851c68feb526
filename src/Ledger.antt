-- ===== src/Ledger.antt =====
-- internal/ledger: journal entries, the double-entry check and the posting of an entry.
pub mod Entry
pub mod Posting
pub mod Repository
pub mod Effect
pub mod Deltas
pub mod Balances
pub mod Equation
pub mod Loaded
pub mod Sound
pub mod Debits
pub mod Invariant
pub mod Reports
pub mod TrialBalance
pub mod Returns
pub mod Tests
