-- ===== src/Integrity/Checkpoints/Sound.antt =====
-- What an audit that reports the ledger as verified has established.
use mathlib.Core.Path.{subst}
use gotrendlabs.Prelude.{
  ℕ, ◌+◌, ◌≡◌, Bool, ◌&&◌, ◌||◌, some, ◌==◌, if◌then◌else◌, Result, ok, err, Ensures, Ensures-if,
  arith, refl, sym, ap, ◌∙◌, Bool-cases, Option-cases, inl, inr,
}
use gotrendlabs.Prelude.Lists.{length}
use gotrendlabs.Integrity.Store.{Bytes, IntegrityDb, Crypto, public_key_der_for}
use gotrendlabs.Integrity.Ledger.{head_after, ledger_head}
use gotrendlabs.Integrity.Audit.Chain.{Chained}
use gotrendlabs.Integrity.Audit.Segments.{IsAscending}
use gotrendlabs.Integrity.Audit.Incremental.{head_after-append, Chained-append}
use gotrendlabs.Integrity.Checkpoints.{
  checkpoint_invalid, valid_text, invalid_text, CheckpointPayload, Checkpoint, AuditDb,
  latest_checkpoint, checkpoint_is_valid,
}
use gotrendlabs.Integrity.Checkpoints.Status.{
  unavailable, verified, failed, is_linked, failure, compare_head, status_with_key, status_of,
  ledger_checkpoint_status,
}
use gotrendlabs.Integrity.Checkpoints.Auditing.{
  is_verdict, waits_for_retry, last_full, is_due, audit_after, audit_since, audit_integrity_ledger,
}
use gotrendlabs.Integrity.Checkpoints.Verdicts.{
  start, IsAscending-append, no_rows, compare_head-verified, middle_of, not_failed, first_of,
  waits_failed,
}
use gotrendlabs.Integrity.Checkpoints.Honest.{
  IsPrefix, IsHonest, IsKept, audit_full-IsKept, audit_incremental-IsKept,
}

module _ (C : Crypto) (checkpoint_json : CheckpointPayload → Bytes) where
  -- A checkpoint that verified the head.
  prefix_of_all :
      (c : Checkpoint) (ledger : IntegrityDb)
      → IsAscending 0 ledger.events
      → IsPrefix C checkpoint_json c ledger
      → c.last_event_sequence ≡ (ledger_head ledger).sequence
      → Chained C ledger 1 0 ledger.events
  unfolding ledger_head
  prefix_of_all c ledger ascending p reached =
      let old_head = head_after start p.old in
      let rest = IsAscending-append p.old p.new start (subst (IsAscending 0) p.rows ascending) in
      let moved =
        ap (λ h. h.sequence)
          (sym (ap (head_after start) p.rows ∙ head_after-append p.old p.new start)) in
      let nothing =
        no_rows p.new old_head rest (omega (arith, moved, reached, ap (λ h. h.sequence) p.head)) in
      subst (Chained C ledger 1 0) (sym p.rows) (
        (Chained-append C ledger p.old p.new 1 start p.chained).1
          (subst (Chained C ledger (1 + length p.old) old_head.event_hash) (sym nothing) tt))

  status_with_key-verified :
      (key : Result Bytes) (c : Checkpoint) (db : AuditDb)
      → (status_with_key C checkpoint_json key c db).status ≡ verified
      → c.last_event_sequence ≡ (ledger_head db.ledger).sequence
  unfolding status_with_key
  status_with_key-verified (err e) c db h = cc
  status_with_key-verified (ok key) c db h =
      elim (Bool-cases
        (checkpoint_is_valid C checkpoint_json c key && is_linked c db.checkpoints)) [
          | inl t ↦ compare_head-verified (ledger_head db.ledger) c db.ledger.events (
              ap
                (λ b.
                  (if b
                    then compare_head (ledger_head db.ledger) c db.ledger.events
                    else failure (ledger_head db.ledger) c checkpoint_invalid).status)
                (sym t)
              ∙ h)
          | inr f ↦ absurd (
              not_failed failed refl (
                ap
                  (λ b.
                    (if b
                      then compare_head (ledger_head db.ledger) c db.ledger.events
                      else failure (ledger_head db.ledger) c checkpoint_invalid).status)
                  (sym f)
                ∙ h))
        ]

  audit_after-IsKept :
      (c : Checkpoint) (now : ℕ) (force_full : Bool) (db : AuditDb)
      → IsAscending 0 db.ledger.events
      → latest_checkpoint db ≡ some c
      → IsHonest C checkpoint_json db
      → Ensures (IsKept C checkpoint_json db) (audit_after C checkpoint_json c now force_full db)
  unfolding audit_after ledger_checkpoint_status status_of
  audit_after-IsKept c now force_full db ascending latest honest =
      let status = ledger_checkpoint_status C checkpoint_json db in
      let known = ap (λ o. (status_of C checkpoint_json o db).status) latest in
      Ensures-if (IsKept C checkpoint_json db) (is_verdict status.status unavailable) _ _ (λ _. tt)
        λ _.
          Ensures-if (IsKept C checkpoint_json db)
            (is_verdict status.status failed && (c.status == valid_text)) _ _
            (λ f. (λ e. absurd (not_failed status.status (first_of _ _ f) e), honest))
            λ _.
              Ensures-if (IsKept C checkpoint_json db)
                (waits_for_retry now force_full (ledger_head db.ledger) c status) _ _
                (λ f. (
                  λ e. absurd (
                      not_failed status.status
                        (waits_failed now force_full (ledger_head db.ledger) c status f) e),
                  honest,
                ))
                λ _.
                  Ensures-if (IsKept C checkpoint_json db)
                    (force_full
                      || (c.status == invalid_text)
                      || is_due now (last_full db.checkpoints))
                    _ _ (λ _. audit_full-IsKept C checkpoint_json now db ascending)
                    λ quick.
                      let p = honest.vouches c latest (
                        middle_of force_full (c.status == invalid_text)
                          (is_due now (last_full db.checkpoints)) quick) in
                      Ensures-if (IsKept C checkpoint_json db) (is_verdict status.status verified) _
                        _
                        (λ _. (
                          λ e. prefix_of_all c db.ledger ascending p (
                              status_with_key-verified (public_key_der_for C db.ledger c.key_id) c
                                db (sym known ∙ e)),
                          honest,
                        ))
                        (λ _. audit_incremental-IsKept C checkpoint_json c now db ascending p)

  -- When the rows come in the order of their positive sequences, and the latest checkpoint, unless
  -- its status is invalid, stands at the end of a chain of the first events: an audit that reports
  -- the ledger as verified, whether it was full, incremental or not even necessary, does so only
  -- when all the events are a chain from 1; and after any audit the latest checkpoint, unless its
  -- status is invalid, stands again at the end of a chain of the first events.
  pub audit_integrity_ledger-IsKept :
      (now : ℕ) (force_full : Bool) (db : AuditDb)
      → IsAscending 0 db.ledger.events
      → IsHonest C checkpoint_json db
      → Ensures
          (IsKept C checkpoint_json db)
          (audit_integrity_ledger C checkpoint_json now force_full db)
  unfolding audit_integrity_ledger audit_since
  audit_integrity_ledger-IsKept now force_full db ascending honest =
      elim (Option-cases (latest_checkpoint db)) [
        | inl fresh ↦
            subst
              (λ o.
                Ensures (IsKept C checkpoint_json db)
                  (audit_since C checkpoint_json o now force_full db))
              (sym fresh) (audit_full-IsKept C checkpoint_json now db ascending)
        | inr latest ↦
            subst
              (λ o.
                Ensures (IsKept C checkpoint_json db)
                  (audit_since C checkpoint_json o now force_full db))
              (sym latest.1)
              (audit_after-IsKept latest.0 now force_full db ascending latest.1 honest)
      ]
