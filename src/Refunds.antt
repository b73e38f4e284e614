-- ===== src/Refunds.antt =====
-- That every open stake can be given back: what cancellation asks of the ledger holds in every state
-- that the handlers reach (`apps/api/backend_api/main.py`, `market_lifecycle_engine.py`).
pub mod Entries
pub mod Rows
pub mod Wallets
pub mod Markets
pub mod Superseding
pub mod Positions
pub mod Handlers
pub mod Transitions
pub mod Credits
pub mod Reachable
