-- ===== src/Lifecycle.antt =====
-- `apps/api/backend_api/market_lifecycle_engine.py`: publishing, closing, resolving and canceling a
-- market, the settlement of its predictions, and the reputation that follows from it.
pub mod Engine
pub mod Reputation
pub mod Settlement
pub mod Refund
pub mod Undo
pub mod Pending
pub mod Settling
pub mod Resolving
pub mod Refunding
pub mod Canceling
pub mod Undoing
pub mod Reopening
pub mod Resolution
pub mod Daemon
pub mod Replay
pub mod Statuses
pub mod Transitions
pub mod Signing
pub mod Refusing
pub mod Paying
pub mod Returning
