-- ===== src/Integrity.antt =====
-- The integrity protocol: backend_api/integrity_service.py.
pub mod Merkle
pub mod Store
pub mod Ledger
pub mod Audit
pub mod Checkpoints
pub mod History
pub mod CommitmentStore
pub mod Commitments
pub mod Sealing
