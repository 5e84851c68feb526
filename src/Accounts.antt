-- ===== src/Accounts.antt =====
-- internal/account: the service that opens accounts and changes their status.
pub mod Service
pub mod Restate
pub mod Laws
pub mod Open
mod Tests
