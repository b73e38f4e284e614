-- ===== src/Integrity/Checkpoints/Written.antt =====
-- What `_create_ledger_checkpoint` leaves, whether or not the signer's key was known.
use gotrendlabs.Prelude.{
  ℕ, ◌≡◌, Bool, true, false, Option, none, some, ◌∷◌, Result, ok, Error, ◌>>=◌, ◌>>◌, raise_if,
  Ensures, refl, signing_key_mismatch,
}
use gotrendlabs.Prelude.Table.{insert_new}
use gotrendlabs.Integrity.Store.{Bytes, IntegrityDb, Crypto, public_key_der_for}
use gotrendlabs.Integrity.Ledger.{signing_key, signed_by, remember_public_key}
use gotrendlabs.Integrity.Ledger.Append.{signature_of, public_key_der_for-insert}
use gotrendlabs.Integrity.Checkpoints.{CheckpointPayload, Checkpoint, AuditDb, latest_checkpoint}
use gotrendlabs.Integrity.Checkpoints.Auditing.{
  Verification, status_text, checkpoint_payload, checkpoint_row, create_ledger_checkpoint,
}

module _ (C : Crypto) (checkpoint_json : CheckpointPayload → Bytes) where
  pub record IsWritten (v : Verification) (db : AuditDb) (r : AuditDb × Checkpoint) : Type 0 where
    pub events : r.0.ledger.events ≡ db.ledger.events
    pub keys :
        (key_id : ℕ)
        → public_key_der_for C db.ledger key_id ≡ public_key_der_for C r.0.ledger key_id
    pub latest : latest_checkpoint r.0 ≡ some r.1
    pub status : r.1.status ≡ status_text v.scan.valid
    pub sequence : r.1.last_event_sequence ≡ v.scan.last_verified_sequence
    pub hash : r.1.last_event_hash ≡ v.scan.last_verified_hash

  guarded :
      {A B : Type 0} (P : B → Type 0) (b : Bool) (e : Error) (x : A) (f : A → Result B)
      → Ensures P (f x)
      → Ensures P (raise_if b e >> ok x >>= f)
  guarded P true e x f h = tt
  guarded P false e x f h = h

  -- The request, given the answer of the signer.
  abbrev pub finish : Verification → ℕ → ℕ → AuditDb → Option ℕ → Result (AuditDb × Checkpoint)
  finish v audit_type now db answer = do
    let latest = latest_checkpoint db
    s ←
        signed_by C answer
          (checkpoint_json (checkpoint_payload C checkpoint_json v audit_type now latest))
    known ← remember_public_key s.2 now db.ledger
    let row = checkpoint_row C checkpoint_json v audit_type now latest s.0 s.1 s.2
    ok (record { ledger = known; checkpoints = row ∷ db.checkpoints }, row)

  finish-IsWritten :
      (v : Verification) (audit_type now : ℕ) (db : AuditDb) (answer : Option ℕ)
      → Ensures (IsWritten v db) (finish v audit_type now db answer)
  unfolding remember_public_key checkpoint_row latest_checkpoint
  finish-IsWritten v audit_type now db none = tt
  finish-IsWritten v audit_type now db (some value) =
      let key = signing_key (signature_of C value) now in
      let latest = latest_checkpoint db in
      let canonical =
        checkpoint_json (checkpoint_payload C checkpoint_json v audit_type now latest) in
      let row =
        checkpoint_row C checkpoint_json v audit_type now latest canonical (C.sha256_hex canonical)
          (signature_of C value) in
      let inserted : IntegrityDb = record {
        events = db.ledger.events;
        keys = insert_new C.key_id key db.ledger.keys;
      } in
      guarded (IsWritten v db) _ signing_key_mismatch inserted
        (λ known. ok (record { ledger = known; checkpoints = row ∷ db.checkpoints }, row))
        (record {
          events = refl;
          keys = public_key_der_for-insert C db.ledger key db.ledger.events refl;
          latest = refl;
          status = refl;
          sequence = refl;
          hash = refl;
        })

  pub create_ledger_checkpoint-IsWritten :
      (v : Verification) (audit_type now : ℕ) (db : AuditDb)
      → Ensures (IsWritten v db) (create_ledger_checkpoint C checkpoint_json v audit_type now db)
  unfolding create_ledger_checkpoint
  create_ledger_checkpoint-IsWritten v audit_type now db = finish-IsWritten v audit_type now db _
