-- ===== src/Transaction.antt =====
-- internal/transaction: transfers, their states and their orchestration.
pub mod Status
pub mod Repository
pub mod Settled
