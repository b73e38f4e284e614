-- ===== src/Daemon.antt =====
-- The cycle of the operational daemon (`apps/api/backend_api/daemon_services.py`): the automatic
-- close of the markets that are due, in one transaction.
pub mod Cycle
pub mod Releases
pub mod Queue
pub mod Closing
