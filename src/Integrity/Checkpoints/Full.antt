-- ===== src/Integrity/Checkpoints/Full.antt =====
-- A full audit of an intact ledger, and the status that is read afterwards.
use gotrendlabs.Prelude.{
  ℕ, ◌≡◌, true, not, Option, none, some, ◌∷◌, leb, if◌then◌else◌, ok, ◌>>=◌, ◌>>◌, raise_if,
  Succeeds, Succeeds-bind, arith, refl, sym, ap, ◌∙◌, signing_key_mismatch,
}
use mathlib.Core.Path.{subst}
use gotrendlabs.Integrity.Store.{Bytes, IntegrityDb, Crypto, IsSigner}
use gotrendlabs.Integrity.Ledger.{Head, ledger_head, signed_by, signing_key, remember_public_key}
use gotrendlabs.Integrity.Ledger.Append.{IsIntact, ◌and◌, signature_of, own_key, known_fingerprint}
use gotrendlabs.Integrity.Audit.{verify_segment}
use gotrendlabs.Integrity.Audit.Segments.{
  IsVerified, verify_segment-Chained, segment-all, Chained-head, Chained-IsAscending,
}
use gotrendlabs.Integrity.Ledger.Keys.{with_key, with_key-IsIntact}
use gotrendlabs.Integrity.Checkpoints.{
  full, CheckpointPayload, Checkpoint, AuditDb, checkpoint_invalid, latest_checkpoint,
  checkpoint_is_valid,
}
use gotrendlabs.Integrity.Checkpoints.Status.{
  verified, failed, Report, failure, compare_head, status_with_key, status_of,
  ledger_checkpoint_status,
}
use gotrendlabs.Integrity.Checkpoints.Auditing.{
  Verification, status_text, checkpoint_payload, checkpoint_row, create_ledger_checkpoint,
  audit_from,
}
use gotrendlabs.Integrity.Checkpoints.Rows.{
  compare_head-eq-verified, IsNumbered, row_links, row_metadata, row_envelope,
}

module _ (C : Crypto) (checkpoint_json : CheckpointPayload → Bytes) where
  -- The row that a checkpoint adds when the signer answers.
  abbrev new_row : Verification → ℕ → ℕ → AuditDb → Checkpoint
  new_row v now value db =
      let canonical =
        checkpoint_json (checkpoint_payload C checkpoint_json v full now (latest_checkpoint db)) in
      checkpoint_row C checkpoint_json v full now (latest_checkpoint db) canonical
        (C.sha256_hex canonical) (signature_of C value)

  abbrev with_row : Verification → ℕ → ℕ → AuditDb → AuditDb
  with_row v now value db = record {
    ledger = with_key C value now db.ledger;
    checkpoints = new_row v now value db ∷ db.checkpoints;
  }

  create_ledger_checkpoint-eq :
      (v : Verification) (now value : ℕ) (db : AuditDb)
      → IsIntact C db.ledger
      → C.sign (
          C.sha256_hex (
            checkpoint_json
              (checkpoint_payload C checkpoint_json v full now (latest_checkpoint db))))
        ≡ some value
      → create_ledger_checkpoint C checkpoint_json v full now db
        ≡ ok (with_row v now value db, new_row v now value db)
  unfolding create_ledger_checkpoint remember_public_key
  create_ledger_checkpoint-eq v now value db intact h =
      let latest = latest_checkpoint db in
      let canonical = checkpoint_json (checkpoint_payload C checkpoint_json v full now latest) in
      let row = signing_key (signature_of C value) now in
      ap
        (λ o. signed_by C o canonical >>= λ s. remember_public_key s.2 now db.ledger >>= λ known.
          let row = checkpoint_row C checkpoint_json v full now latest s.0 s.1 s.2 in
          ok (record { ledger = known; checkpoints = row ∷ db.checkpoints }, row))
        h
      ∙ ap
          (λ b.
            raise_if (not b) signing_key_mismatch
            >> ok (with_key C value now db.ledger)
            >>= λ known. ok (
              record { ledger = known; checkpoints = new_row v now value db ∷ db.checkpoints },
              new_row v now value db,
            ))
          (known_fingerprint C db.ledger row intact refl)

  -- With such a row the status is verified.
  with_row-eq-verified :
      IsSigner C
      → (v : Verification) (now value : ℕ) (db : AuditDb) → IsIntact C db.ledger
      → IsNumbered (latest_checkpoint db)
      → C.sign (
          C.sha256_hex (
            checkpoint_json
              (checkpoint_payload C checkpoint_json v full now (latest_checkpoint db))))
        ≡ some value
      → v.scan.valid ≡ true
      → v.head ≡ ledger_head db.ledger
      → record { sequence = v.scan.last_verified_sequence; event_hash = v.scan.last_verified_hash }
        ≡ v.head
      → (ledger_checkpoint_status C checkpoint_json (with_row v now value db)).status ≡ verified
  unfolding ledger_checkpoint_status status_of status_with_key latest_checkpoint checkpoint_is_valid
      checkpoint_row ledger_head
  with_row-eq-verified law v now value db intact numbered h valid observed reached =
      let after = with_row v now value db in
      let row = new_row v now value db in
      let latest = latest_checkpoint db in
      let canonical = checkpoint_json (checkpoint_payload C checkpoint_json v full now latest) in
      ap (λ k. (status_with_key C checkpoint_json k row after).status)
        (own_key C after.ledger (with_key-IsIntact C value now db.ledger intact))
      ∙ ap
          (λ b.
            (if b
              then compare_head (ledger_head after.ledger) row after.ledger.events
              else failure (ledger_head after.ledger) row checkpoint_invalid).status)
          ((row_envelope C checkpoint_json law v now value latest valid h
              and row_metadata C checkpoint_json v full now latest canonical
                  (C.sha256_hex canonical) (signature_of C value))
            and row_links row db.checkpoints refl refl numbered)
      ∙ compare_head-eq-verified (ledger_head after.ledger) row after.ledger.events
          (ap status_text valid) (ap (λ k. k.sequence) reached) (ap (λ k. k.event_hash) reached)
          (ap (λ k. k.sequence) (sym observed)) (ap (λ k. k.event_hash) (sym observed))

  -- What a full audit ends with.
  abbrev pub IsAudited : IntegrityDb → AuditDb × Report → Type 0
  IsAudited ledger r =
      IsIntact C r.0.ledger
      × (r.1.status ≡ verified)
      × (r.1.verified_through_sequence ≡ (ledger_head ledger).sequence)
      × ((ledger_checkpoint_status C checkpoint_json r.0).status ≡ verified)

  -- A full audit of a ledger that the service wrote, with a signer that answers and with checkpoints
  -- that are numbered from 1, succeeds: it reports the ledger as verified up to its head, and
  -- `ledger_checkpoint_status` reads from the checkpoint that it leaves that the ledger is verified.
  pub audit_from-IsAudited :
      IsSigner C
      → ((digest : ℕ) → (value : ℕ) × (C.sign digest ≡ some value))
      → (now : ℕ) (db : AuditDb) → IsIntact C db.ledger
      → IsNumbered (latest_checkpoint db)
      → Succeeds (IsAudited db.ledger) (audit_from C checkpoint_json full 1 0 now db)
  unfolding audit_from ledger_head checkpoint_row
  audit_from-IsAudited law answers now db intact numbered =
      let start : Head = record { sequence = 0; event_hash = 0 } in
      let events = db.ledger.events in
      let head = ledger_head db.ledger in
      let first : Option ℕ = if leb 1 head.sequence then some 1 else none in
      Succeeds-bind (IsVerified C db.ledger 0 0 events) (IsAudited db.ledger)
        (verify_segment C db.ledger 1 head.sequence 0) _
        (verify_segment-Chained C db.ledger 0 head.sequence 0 events
          (segment-all events 1 head.sequence start (omega arith)
            (Chained-IsAscending C db.ledger events 0 0 intact.chained) (omega arith))
          (Chained-head C db.ledger events 1 start refl intact.chained) intact.chained)
        λ scan ver.
          let v : Verification = record {
            scan = scan;
            first_event_sequence = first;
            head = head;
          } in
          let answer = answers (
            C.sha256_hex (
              checkpoint_json
                (checkpoint_payload C checkpoint_json v full now (latest_checkpoint db)))) in
          Succeeds-bind (λ r. r ≡ (with_row v now answer.0 db, new_row v now answer.0 db))
            (IsAudited db.ledger) (create_ledger_checkpoint C checkpoint_json v full now db) _
            (subst (Succeeds (λ r. r ≡ (with_row v now answer.0 db, new_row v now answer.0 db)))
              (sym (create_ledger_checkpoint-eq v now answer.0 db intact answer.1)) refl)
            λ r made.
              subst
                (λ (x : AuditDb × Checkpoint).
                  IsIntact C x.0.ledger
                  × ((if scan.valid then verified else failed) ≡ verified)
                  × (x.1.last_event_sequence ≡ head.sequence)
                  × ((ledger_checkpoint_status C checkpoint_json x.0).status ≡ verified))
                (sym made)
                (
                  with_key-IsIntact C answer.0 now db.ledger intact,
                  ap (λ b. if b then verified else failed) ver.valid,
                  ap (λ k. k.sequence) ver.head,
                  with_row-eq-verified law v now answer.0 db intact numbered answer.1 ver.valid refl
                      ver.head,
                )
