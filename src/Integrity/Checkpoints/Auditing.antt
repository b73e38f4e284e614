-- ===== src/Integrity/Checkpoints/Auditing.antt =====
-- `_create_ledger_checkpoint` and `audit_integrity_ledger`
use gotrendlabs.Prelude.{
  ℕ, ◌+◌, Bool, true, false, not, ◌&&◌, ◌||◌, Option, none, some, List, [], ◌∷◌, ◌==◌, leb,
  if◌then◌else◌, Result, ok, err, ◌>>=◌, checkpoint_unsafe,
}
use gotrendlabs.Integrity.Store.{Bytes, Crypto, protocol_v1}
use gotrendlabs.Integrity.Ledger.{Head, Signature, ledger_head, signed_by, remember_public_key}
use gotrendlabs.Integrity.Audit.{Scan, verify_segment}
use gotrendlabs.Integrity.Checkpoints.{
  valid_text, invalid_text, full, incremental, verifier_v1, ledger_chain_invalid, Field, number,
  text, numbers, or_null, CheckpointPayload, Checkpoint, AuditDb, latest_checkpoint,
}
use gotrendlabs.Integrity.Checkpoints.Status.{
  Verdict, unavailable, verified, failed, Report, ledger_checkpoint_status,
}

-- `verification`, as the audit completes it
pub record Verification : Type 0 where
  pub scan : Scan
  pub first_event_sequence : Option ℕ
  pub head : Head

-- FULL_AUDIT_INTERVAL and INVALID_AUDIT_RETRY_INTERVAL
abbrev pub full_audit_interval : ℕ
full_audit_interval = 86_400

abbrev pub invalid_audit_retry_interval : ℕ
invalid_audit_retry_interval = 3_600

abbrev pub status_text : Bool → ℕ
status_text true = valid_text
status_text false = invalid_text

abbrev pub issue_of : Bool → ℕ
issue_of true = 0
issue_of false = ledger_chain_invalid

abbrev pub next_checkpoint_sequence : Option Checkpoint → ℕ
next_checkpoint_sequence none = 1
next_checkpoint_sequence (some latest) = latest.checkpoint_sequence + 1

abbrev pub previous_hash_of : Option Checkpoint → ℕ
previous_hash_of none = 0
previous_hash_of (some latest) = latest.checkpoint_hash

-- `sorted`
abbrev pub insert_sorted : ℕ → List ℕ → List ℕ
insert_sorted n [] = n ∷ []
insert_sorted n (k ∷ ks) = if leb n k then n ∷ k ∷ ks else k ∷ insert_sorted n ks

abbrev pub sorted : List ℕ → List ℕ
sorted [] = []
sorted (n ∷ ns) = insert_sorted n (sorted ns)

abbrev pub is_verdict : Verdict → Verdict → Bool
is_verdict unavailable unavailable = true
is_verdict verified verified = true
is_verdict failed failed = true
is_verdict Verdict.pending Verdict.pending = true
is_verdict _ _ = false

-- A failed audit of the same head is not repeated too soon.
unfoldable pub waits_for_retry : ℕ → Bool → Head → Checkpoint → Report → Bool
waits_for_retry now force_full head latest status =
    (latest.status == invalid_text)
    && is_verdict status.status failed
    && (status.issue_code == ledger_chain_invalid)
    && not force_full
    && (head.sequence == latest.observed_head_sequence)
    && (head.event_hash == latest.observed_head_hash)
    && not (leb (latest.verified_at + invalid_audit_retry_interval) now)

-- The latest full checkpoint that is valid.
unfoldable pub last_full : List Checkpoint → Option ℕ
last_full [] = none
last_full (c ∷ older) =
    if (c.audit_type == full) && (c.status == valid_text)
    then some c.verified_at
    else last_full older

abbrev pub is_due : ℕ → Option ℕ → Bool
is_due now none = true
is_due now (some verified_at) = leb (verified_at + full_audit_interval) now

-- What an audit that wrote a checkpoint returns.
abbrev pub audit_report : Scan → Head → Checkpoint → Report
audit_report scan head checkpoint = record {
  status = if scan.valid then verified else failed;
  valid = some scan.valid;
  invalid_market_ids = scan.invalid_market_ids;
  current_sequence = head.sequence;
  current_event_hash = head.event_hash;
  verified_through_sequence = checkpoint.last_event_sequence;
  verified_at = some checkpoint.verified_at;
  audit_type = some checkpoint.audit_type;
  pending_events = 0;
  issue_code = checkpoint.issue_code;
}

abbrev pub verification_of : ℕ → Scan → Head → Verification
verification_of start_sequence scan head = record {
  scan = scan;
  first_event_sequence = if leb start_sequence head.sequence then some start_sequence else none;
  head = head;
}

module _ (C : Crypto) (checkpoint_json : CheckpointPayload → Bytes) where
  -- What is hashed and signed for a checkpoint.
  unfoldable pub checkpoint_payload : Verification → ℕ → ℕ → Option Checkpoint → CheckpointPayload
  checkpoint_payload v audit_type verified_at latest =
      (Field.audit_type, text audit_type)
      ∷ (Field.checkpoint_sequence, number (next_checkpoint_sequence latest))
      ∷ (Field.failure_sequence, or_null v.scan.first_invalid_sequence)
      ∷ (Field.first_event_sequence, or_null v.first_event_sequence)
      ∷ (Field.issue_code, text (issue_of v.scan.valid))
      ∷ (Field.invalid_market_ids, numbers (sorted v.scan.invalid_market_ids))
      ∷ (Field.last_event_hash, text v.scan.last_verified_hash)
      ∷ (Field.last_event_sequence, number v.scan.last_verified_sequence)
      ∷ (Field.observed_head_hash, text v.head.event_hash)
      ∷ (Field.observed_head_sequence, number v.head.sequence)
      ∷ (Field.previous_checkpoint_hash, text (previous_hash_of latest))
      ∷ (Field.protocol_version, text protocol_v1)
      ∷ (Field.status, text (status_text v.scan.valid))
      ∷ (Field.verified_at, text (C.json_default verified_at))
      ∷ (Field.verified_event_count, number v.scan.verified_event_count)
      ∷ (Field.verifier_version, text verifier_v1)
      ∷ []

  -- The inserted row.
  unfoldable pub checkpoint_row :
      Verification → ℕ → ℕ → Option Checkpoint → Bytes → ℕ → Signature → Checkpoint
  unfolding checkpoint_payload
  checkpoint_row v audit_type verified_at latest canonical digest signed = record {
    checkpoint_sequence = next_checkpoint_sequence latest;
    audit_type = audit_type;
    status = status_text v.scan.valid;
    first_event_sequence = v.first_event_sequence;
    last_event_sequence = v.scan.last_verified_sequence;
    last_event_hash = v.scan.last_verified_hash;
    observed_head_sequence = v.head.sequence;
    observed_head_hash = v.head.event_hash;
    verified_event_count = v.scan.verified_event_count;
    previous_checkpoint_hash = previous_hash_of latest;
    failure_sequence = v.scan.first_invalid_sequence;
    issue_code = issue_of v.scan.valid;
    protocol_version = protocol_v1;
    verifier_version = verifier_v1;
    canonical_payload = canonical;
    payload_json = checkpoint_payload v audit_type verified_at latest;
    checkpoint_hash = digest;
    signature = signed.value;
    algorithm = signed.algorithm;
    key_id = signed.key_id;
    key_fingerprint = signed.key_fingerprint;
    verified_at = verified_at;
    created_at = verified_at;
  }

  -- `_create_ledger_checkpoint`
  unfoldable pub create_ledger_checkpoint :
      Verification → ℕ → ℕ → AuditDb → Result (AuditDb × Checkpoint)
  unfolding latest_checkpoint checkpoint_payload checkpoint_row
  create_ledger_checkpoint v audit_type verified_at db = do
    let latest = latest_checkpoint db
    let canonical = checkpoint_json (checkpoint_payload v audit_type verified_at latest)
    s ← signed_by C (C.sign (C.sha256_hex canonical)) canonical
    known ← remember_public_key s.2 verified_at db.ledger
    let row = checkpoint_row v audit_type verified_at latest s.0 s.1 s.2
    ok (record { ledger = known; checkpoints = row ∷ db.checkpoints }, row)

  unfoldable pub audit_from : ℕ → ℕ → ℕ → ℕ → AuditDb → Result (AuditDb × Report)
  unfolding verify_segment ledger_head create_ledger_checkpoint
  audit_from audit_type start_sequence expected_previous_hash now db = do
    let head = ledger_head db.ledger
    scan ← verify_segment C db.ledger start_sequence head.sequence expected_previous_hash
    r ← create_ledger_checkpoint (verification_of start_sequence scan head) audit_type now db
    ok (r.0, audit_report scan head r.1)

  -- The audit after a checkpoint.
  unfoldable pub audit_after : Checkpoint → ℕ → Bool → AuditDb → Result (AuditDb × Report)
  unfolding ledger_head waits_for_retry last_full audit_from
  audit_after latest now force_full db =
      let head = ledger_head db.ledger in
      let status = ledger_checkpoint_status C checkpoint_json db in
      let is_full =
        force_full || (latest.status == invalid_text) || is_due now (last_full db.checkpoints) in
      if is_verdict status.status unavailable
      then err checkpoint_unsafe
      else if is_verdict status.status failed && (latest.status == valid_text)
      then ok (db, status)
      else if waits_for_retry now force_full head latest status
      then ok (db, status)
      else if is_full
      then audit_from full 1 0 now db
      else if is_verdict status.status verified
      then ok (db, status)
      else audit_from incremental (latest.last_event_sequence + 1) latest.last_event_hash now db

  unfoldable pub audit_since : Option Checkpoint → ℕ → Bool → AuditDb → Result (AuditDb × Report)
  unfolding audit_after audit_from
  audit_since none now force_full db = audit_from full 1 0 now db
  audit_since (some latest) now force_full db = audit_after latest now force_full db

  -- `audit_integrity_ledger`
  unfoldable pub audit_integrity_ledger : ℕ → Bool → AuditDb → Result (AuditDb × Report)
  unfolding latest_checkpoint audit_since
  audit_integrity_ledger now force_full db = audit_since (latest_checkpoint db) now force_full db
