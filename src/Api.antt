-- ===== src/Api.antt =====
-- api: the handlers, the routes and the request log.
pub mod Answer
pub mod AuditQuery
pub mod Accounts
pub mod Transfers
pub mod Reports
pub mod Routes
pub mod Explained
pub mod Errors
pub mod Tests
pub mod Safe
pub mod Handled
pub mod Once
pub mod Queries
pub mod Health
