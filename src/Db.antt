-- ===== src/Db.antt =====
-- The tables of `apps/web/django/markets/models.py` and `accounts/models.py` that the modelled
-- handlers read and write, and the queries that several handlers share. Instants are microseconds;
-- texts that are only compared (slugs) are numbers. One value is one transaction's view: the row
-- and advisory locks of the source keep two transactions on the same rows apart.
mod Tables
mod Queries
pub mod Stakes
pub mod Backing
unfoldable pub use Tables.*
unfoldable pub use Queries.*
