-- ===== src/Integrity/Checkpoints/Honest.antt =====
-- What is asked of the latest checkpoint, and what an audit of a range of the ledger leaves.
use mathlib.Core.Path.{subst}
use mathlib.Core.Option.{some_inj}
use gotrendlabs.Prelude.{
  suc, List, [], ℕ, ◌+◌, ◌≡◌, true, false, some, List, ◌++◌, ◌==◌, ok, Ensures, Ensures-bind,
  ensured, Succeeds, arith, refl, sym, ap, ◌∙◌,
}
use gotrendlabs.Integrity.Store.{Bytes, Event, IntegrityDb, Crypto}
use gotrendlabs.Integrity.Ledger.{Head, head_after, ledger_head}
use gotrendlabs.Integrity.Audit.{Scan, verify_segment, verify_integrity_ledger_chain}
use gotrendlabs.Integrity.Audit.Chain.{Chained}
use gotrendlabs.Integrity.Audit.Segments.{
  IsAscending, verify_integrity_ledger_chain-Chained, IsVerified, verify_segment-Chained,
  segment-all, Chained-head,
}
use gotrendlabs.Integrity.Audit.Incremental.{verify_segment-incremental, verify_segment-reaches}
use gotrendlabs.Integrity.Checkpoints.{
  invalid_text, full, incremental, CheckpointPayload, Checkpoint, AuditDb, latest_checkpoint,
}
use gotrendlabs.Integrity.Checkpoints.Status.{verified, Report}
use gotrendlabs.Integrity.Checkpoints.Auditing.{
  Verification, create_ledger_checkpoint, verification_of, audit_report, audit_from,
}
use gotrendlabs.Integrity.Ledger.Append.{Chained-keys}
use gotrendlabs.Integrity.Checkpoints.Written.{IsWritten, create_ledger_checkpoint-IsWritten}
use gotrendlabs.Integrity.Checkpoints.Verdicts.{
  append_none, valid_of_text, start, IsAscending-append, valid_of,
}

module _ (C : Crypto) (checkpoint_json : CheckpointPayload → Bytes) where
  -- The events up to a checkpoint.
  pub record IsPrefix (c : Checkpoint) (ledger : IntegrityDb) : Type 0 where
    pub old : List Event
    pub new : List Event
    pub rows : ledger.events ≡ old ++ new
    pub chained : Chained C ledger 1 0 old
    pub head :
        record { sequence = c.last_event_sequence; event_hash = c.last_event_hash }
        ≡ head_after start old

  -- The latest checkpoint, unless it says invalid, stands at the end of a chain.
  pub record IsHonest (db : AuditDb) : Type 0 where
    pub vouches :
        (c : Checkpoint)
        → latest_checkpoint db ≡ some c
        → (c.status == invalid_text) ≡ false
        → IsPrefix c db.ledger

  -- The audit reports nothing as verified that is not a chain.
  abbrev pub IsSafe : AuditDb → AuditDb × Report → Type 0
  IsSafe db r = r.1.status ≡ verified → Chained C db.ledger 1 0 db.ledger.events

  -- ... and the checkpoint that it leaves is honest again.
  abbrev pub IsKept : AuditDb → AuditDb × Report → Type 0
  IsKept db r = IsSafe db r × IsHonest r.0

  -- What a verification that passes says of the whole ledger.
  abbrev Established : AuditDb → Scan → Type 0
  Established db scan =
      Chained C db.ledger 1 0 db.ledger.events
      × (record { sequence = scan.last_verified_sequence; event_hash = scan.last_verified_hash }
          ≡ ledger_head db.ledger)

  -- A checkpoint that was written on what was established.
  written-IsHonest :
      (v : Verification) (db : AuditDb) (r : AuditDb × Checkpoint)
      → (v.scan.valid ≡ true → Established db v.scan)
      → IsWritten C checkpoint_json v db r
      → IsHonest r.0
  unfolding ledger_head
  written-IsHonest v db r found w = record {
    vouches = λ c latest valid.
        let same : r.1 ≡ c = some_inj.0 (sym w.latest ∙ latest) in
        let passed =
          valid_of_text v.scan.valid
            (ap (λ k. k == invalid_text) (sym w.status ∙ ap (λ x. x.status) same) ∙ valid) in
        let f = found passed in
        subst (λ x. IsPrefix x r.0.ledger) same
          (record {
            old = db.ledger.events;
            new = [];
            rows = w.events ∙ append_none db.ledger.events;
            chained = Chained-keys C db.ledger r.0.ledger w.keys db.ledger.events 1 0 f.0;
            head =
                ap (λ n. record { sequence = n; event_hash = r.1.last_event_hash }) w.sequence
                ∙ ap (λ n. record { sequence = v.scan.last_verified_sequence; event_hash = n })
                    w.hash
                ∙ f.1;
          });
  }

  audit_from-IsKept :
      (audit_type first hash now : ℕ) (db : AuditDb)
      → ((scan : Scan)
          → verify_segment C db.ledger first (ledger_head db.ledger).sequence hash ≡ ok scan
          → scan.valid ≡ true
          → Established db scan)
      → Ensures (IsKept db) (audit_from C checkpoint_json audit_type first hash now db)
  unfolding audit_from
  audit_from-IsKept audit_type first hash now db found =
      let head = ledger_head db.ledger in
      Ensures-bind (IsKept db) (verify_segment C db.ledger first head.sequence hash) _ λ scan e.
        let v = verification_of first scan head in
        Ensures-bind (IsKept db) (create_ledger_checkpoint C checkpoint_json v audit_type now db)
          (λ r. ok (r.0, audit_report scan head r.1))
          λ r made. (
            λ passed. (found scan e (valid_of scan.valid passed)).0,
            written-IsHonest v db r (found scan e) (
                ensured (IsWritten C checkpoint_json v db)
                  (create_ledger_checkpoint C checkpoint_json v audit_type now db)
                  (create_ledger_checkpoint-IsWritten C checkpoint_json v audit_type now db) made),
          )

  -- A full audit.
  pub audit_full-IsKept :
      (now : ℕ) (db : AuditDb)
      → IsAscending 0 db.ledger.events
      → Ensures (IsKept db) (audit_from C checkpoint_json full 1 0 now db)
  unfolding verify_integrity_ledger_chain ledger_head
  audit_full-IsKept now db ascending =
      let through = (ledger_head db.ledger).sequence in
      let events = db.ledger.events in
      audit_from-IsKept full 1 0 now db λ scan e valid.
        let c =
          (verify_integrity_ledger_chain-Chained C db.ledger ascending).0
            (subst (Succeeds (λ r. r.valid ≡ true)) (sym e) valid) in
        let v = subst (Succeeds (IsVerified C db.ledger 0 0 events)) e (
          verify_segment-Chained C db.ledger 0 through 0 events
            (segment-all events 1 through start (omega arith) ascending (omega arith))
            (Chained-head C db.ledger events 1 start refl c) c) in
        (c, v.head)

  -- An audit of the events since an honest checkpoint.
  pub audit_incremental-IsKept :
      (c : Checkpoint) (now : ℕ) (db : AuditDb)
      → IsAscending 0 db.ledger.events
      → IsPrefix c db.ledger
      → Ensures (IsKept db) (
          audit_from C checkpoint_json incremental
            (c.last_event_sequence + 1)
            c.last_event_hash
            now
            db)
  audit_incremental-IsKept c now db ascending p =
      let boundary : Head = record {
        sequence = c.last_event_sequence;
        event_hash = c.last_event_hash;
      } in
      let through = (ledger_head db.ledger).sequence in
      let rest =
        subst (λ k. IsAscending k p.new) (ap (λ h. h.sequence) (sym p.head))
          (IsAscending-append p.old p.new start (subst (IsAscending 0) p.rows ascending)) in
      audit_from-IsKept incremental (c.last_event_sequence + 1) c.last_event_hash now db
        λ scan e valid.
          let e' : verify_segment C db.ledger (suc c.last_event_sequence) through c.last_event_hash
              ≡ ok scan =
            ap (λ n. verify_segment C db.ledger n through c.last_event_hash) (omega arith) ∙ e in
          let passed = subst (Succeeds (λ r. r.valid ≡ true)) (sym e') valid in
          (
            (verify_segment-incremental C db.ledger p.old p.new boundary p.rows p.head p.chained
                  rest).0
                passed,
            subst
                (Succeeds (λ r.
                  record { sequence = r.last_verified_sequence; event_hash = r.last_verified_hash }
                  ≡ ledger_head db.ledger))
                e'
                (verify_segment-reaches C db.ledger p.old p.new boundary p.rows p.head p.chained
                  rest passed),
          )
