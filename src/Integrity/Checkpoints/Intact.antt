-- ===== src/Integrity/Checkpoints/Intact.antt =====
-- An audit adds a checkpoint, and leaves the ledger one of the service.
use gotrendlabs.Prelude.{
  ℕ, Bool, ◌&&◌, ◌||◌, Option, none, some, ◌==◌, Result, Ensures, Ensures-bind, if_either, ◌+◌,
  ensured,
}
use gotrendlabs.Integrity.Store.{Bytes, Crypto}
use gotrendlabs.Integrity.Ledger.{ledger_head, remember_public_key}
use gotrendlabs.Integrity.Ledger.Append.{IsIntact, signature_of}
use gotrendlabs.Integrity.Audit.{verify_segment}
use gotrendlabs.Integrity.Checkpoints.{
  invalid_text, valid_text, full, incremental, CheckpointPayload, Checkpoint, AuditDb,
  latest_checkpoint,
}
use gotrendlabs.Integrity.Checkpoints.Status.{
  unavailable, verified, failed, Report, ledger_checkpoint_status,
}
use gotrendlabs.Integrity.Checkpoints.Auditing.{
  Verification, is_verdict, waits_for_retry, last_full, is_due, create_ledger_checkpoint,
  verification_of, audit_from, audit_after, audit_since, audit_integrity_ledger,
}
use gotrendlabs.Integrity.Checkpoints.Written.{finish}
use gotrendlabs.Integrity.Ledger.Keys.{remember_public_key-IsIntact}

module _ (C : Crypto) (checkpoint_json : CheckpointPayload → Bytes) where
  -- The ledger of an audit stays one of the service.
  abbrev pub KeepsIntact : {A : Type 0} → AuditDb × A → Type 0
  KeepsIntact r = IsIntact C r.0.ledger

  finish-IsIntact :
      (v : Verification) (audit_type now : ℕ) (db : AuditDb) (answer : Option ℕ)
      → IsIntact C db.ledger
      → Ensures KeepsIntact (finish C checkpoint_json v audit_type now db answer)
  finish-IsIntact v audit_type now db none intact = tt
  finish-IsIntact v audit_type now db (some value) intact =
      Ensures-bind KeepsIntact (remember_public_key (signature_of C value) now db.ledger) _
        λ known e.
          ensured (IsIntact C) _ (remember_public_key-IsIntact C value now db.ledger intact) e

  create_ledger_checkpoint-IsIntact :
      (v : Verification) (audit_type now : ℕ) (db : AuditDb)
      → IsIntact C db.ledger
      → Ensures KeepsIntact (create_ledger_checkpoint C checkpoint_json v audit_type now db)
  unfolding create_ledger_checkpoint
  create_ledger_checkpoint-IsIntact v audit_type now db intact =
      finish-IsIntact v audit_type now db _ intact

  audit_from-IsIntact :
      (audit_type first hash now : ℕ) (db : AuditDb)
      → IsIntact C db.ledger
      → Ensures KeepsIntact (audit_from C checkpoint_json audit_type first hash now db)
  unfolding audit_from
  audit_from-IsIntact audit_type first hash now db intact =
      let head = ledger_head db.ledger in
      Ensures-bind KeepsIntact (verify_segment C db.ledger first head.sequence hash) _ λ scan e.
        let v = verification_of first scan head in
        Ensures-bind KeepsIntact (create_ledger_checkpoint C checkpoint_json v audit_type now db) _
          λ r made.
            ensured KeepsIntact _ (create_ledger_checkpoint-IsIntact v audit_type now db intact)
              made

  audit_after-IsIntact :
      (c : Checkpoint) (now : ℕ) (force_full : Bool) (db : AuditDb)
      → IsIntact C db.ledger
      → Ensures KeepsIntact (audit_after C checkpoint_json c now force_full db)
  unfolding audit_after
  audit_after-IsIntact c now force_full db intact =
      let status = ledger_checkpoint_status C checkpoint_json db in
      let P = λ (r : Result (AuditDb × Report)). Ensures KeepsIntact r in
      if_either P (is_verdict status.status unavailable) tt (
        if_either P (is_verdict status.status failed && (c.status == valid_text)) intact (
          if_either P (waits_for_retry now force_full (ledger_head db.ledger) c status) intact (
            if_either P
              (force_full || (c.status == invalid_text) || is_due now (last_full db.checkpoints))
              (audit_from-IsIntact full 1 0 now db intact)
              (if_either P (is_verdict status.status verified) intact (
                audit_from-IsIntact incremental (c.last_event_sequence + 1) c.last_event_hash now db
                  intact)))))

  audit_since-IsIntact :
      (latest : Option Checkpoint) (now : ℕ) (force_full : Bool) (db : AuditDb)
      → IsIntact C db.ledger
      → Ensures KeepsIntact (audit_since C checkpoint_json latest now force_full db)
  unfolding audit_since
  audit_since-IsIntact none now force_full db intact = audit_from-IsIntact full 1 0 now db intact
  audit_since-IsIntact (some c) now force_full db intact =
      audit_after-IsIntact c now force_full db intact

  pub audit_integrity_ledger-IsIntact :
      (now : ℕ) (force_full : Bool) (db : AuditDb)
      → IsIntact C db.ledger
      → Ensures KeepsIntact (audit_integrity_ledger C checkpoint_json now force_full db)
  unfolding audit_integrity_ledger
  audit_integrity_ledger-IsIntact now force_full db intact =
      audit_since-IsIntact (latest_checkpoint db) now force_full db intact
