-- ===== src/Transfer.antt =====
-- internal/transaction/service.go: the orchestration of one transfer.
pub mod Request
pub mod Claim
pub mod Trail
pub mod Prepare
pub mod Legs
pub mod Service
pub mod Frame
pub mod Kept
pub mod Moves
pub mod Steps
pub mod Atomic
pub mod Replay
pub mod Sound
pub mod Tests
pub mod Posted
pub mod Fresh
