-- ===== src/Position.antt =====
-- Positions: the first prediction of a user in a market, its reinforcement and its revision
-- (`create_prediction`, `_apply_position_action` and what they call in
-- `apps/api/backend_api/main.py`, and `prediction_write_service.py`).
pub mod Config
pub mod Queries
pub mod Snapshot
pub mod Write
pub mod Validate
pub mod Apply
pub mod Bots
pub mod Stakes
pub mod Accepted
pub mod Wallets
pub mod Backing
pub mod InitialStake
pub mod Handlers
pub mod Admission
