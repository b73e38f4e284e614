-- ===== src/Wallet.antt =====
-- The wallet of `apps/api/backend_api/main.py`: an append-only ledger of entries and a cached
-- balance row for each user. Amounts are naturals (the callers pass stakes, positive payloads and
-- sums of amounts); balances are integers, as the columns have no lower bound. A ledger is held
-- newest entry first, and the identity column gives ids 1, 2, 3, …
mod Defs
pub mod Consistency
pub mod Effects
unfoldable pub use Defs.*
