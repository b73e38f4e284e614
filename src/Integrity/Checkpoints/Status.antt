-- ===== src/Integrity/Checkpoints/Status.antt =====
-- `ledger_checkpoint_status`
use gotrendlabs.Prelude.{
  ℕ, ◌-◌, Bool, true, false, not, ◌&&◌, ◌||◌, Option, none, some, List, [], ◌∷◌, ◌==◌, ltb,
  if◌then◌else◌, Result, ok, err,
}
use gotrendlabs.Integrity.Store.{Bytes, Event, Crypto, public_key_der_for}
use gotrendlabs.Integrity.Ledger.{Head, ledger_head}
use gotrendlabs.Integrity.Checkpoints.{
  invalid_text, checkpoint_unavailable, checkpoint_key_unavailable, checkpoint_invalid,
  ledger_chain_invalid, ledger_head_regressed, ledger_head_changed, checkpoint_boundary_invalid,
  ledger_verification_pending, Field, Value, numbers, CheckpointPayload, get, Checkpoint, AuditDb,
  latest_checkpoint, checkpoint_is_valid,
}

pub data Verdict : Type 0 where
  unavailable verified failed pending : Verdict

-- What the report holds; `checkpoint` is left out.
pub record Report : Type 0 where
  pub status : Verdict
  pub valid : Option Bool
  pub invalid_market_ids : List ℕ
  pub current_sequence : ℕ
  pub current_event_hash : ℕ
  pub verified_through_sequence : ℕ
  pub verified_at : Option ℕ
  pub audit_type : Option ℕ
  pub pending_events : ℕ
  pub issue_code : ℕ

-- `base`, with a status
abbrev pub unavailable_report : Head → ℕ → Report
unavailable_report head issue_code = record {
  status = unavailable;
  valid = none;
  invalid_market_ids = [];
  current_sequence = head.sequence;
  current_event_hash = head.event_hash;
  verified_through_sequence = 0;
  verified_at = none;
  audit_type = none;
  pending_events = head.sequence;
  issue_code = issue_code;
}

abbrev pub as_set : Value → List ℕ
as_set (numbers ids) = ids
as_set _ = []

-- `details`, with a status
abbrev pub details : Head → Checkpoint → Verdict → Option Bool → ℕ → ℕ → Report
details head c status valid pending_events issue_code = record {
  status = status;
  valid = valid;
  invalid_market_ids = as_set (get Field.invalid_market_ids c.payload_json);
  current_sequence = head.sequence;
  current_event_hash = head.event_hash;
  verified_through_sequence = c.last_event_sequence;
  verified_at = some c.verified_at;
  audit_type = some c.audit_type;
  pending_events = pending_events;
  issue_code = issue_code;
}

abbrev pub failure : Head → Checkpoint → ℕ → Report
failure head c issue_code = details head c failed (some false) head.sequence issue_code

-- SELECT checkpoint_hash … WHERE checkpoint_sequence = n
unfoldable pub hash_at : ℕ → List Checkpoint → Option ℕ
hash_at n [] = none
hash_at n (c ∷ older) =
    if c.checkpoint_sequence == n then some c.checkpoint_hash else hash_at n older

-- SELECT event_hash … WHERE sequence = n
unfoldable pub event_hash_at : ℕ → List Event → Option ℕ
event_hash_at n [] = none
event_hash_at n (event ∷ events) =
    if event.sequence == n then some event.event_hash else event_hash_at n events

abbrev pub is_hash : ℕ → Option ℕ → Bool
is_hash hash none = false
is_hash hash (some other) = other == hash

-- The link to the checkpoint before.
unfoldable pub is_linked : Checkpoint → List Checkpoint → Bool
unfolding hash_at
is_linked c checkpoints =
    if ltb 1 c.checkpoint_sequence
    then is_hash c.previous_checkpoint_hash (hash_at (c.checkpoint_sequence - 1) checkpoints)
    else c.previous_checkpoint_hash == 0

abbrev pub or_chain_invalid : ℕ → ℕ
or_chain_invalid code = if code == 0 then ledger_chain_invalid else code

-- The event at which the verified part ends.
unfoldable pub boundary_hash : ℕ → List Event → Option ℕ
unfolding event_hash_at
boundary_hash last events = if last == 0 then some 0 else event_hash_at last events

-- The comparison of a valid checkpoint with the head of the ledger.
unfoldable pub compare_head : Head → Checkpoint → List Event → Report
unfolding boundary_hash
compare_head head c events =
    if c.status == invalid_text
    then failure head c (or_chain_invalid c.issue_code)
    else if not (c.last_event_sequence == c.observed_head_sequence)
        || not (c.last_event_hash == c.observed_head_hash)
    then failure head c checkpoint_invalid
    else if ltb head.sequence c.observed_head_sequence
    then failure head c ledger_head_regressed
    else if head.sequence == c.observed_head_sequence
    then (if not (head.event_hash == c.observed_head_hash)
        then failure head c ledger_head_changed
        else details head c verified (some true) 0 0)
    else if not (is_hash c.last_event_hash (boundary_hash c.last_event_sequence events))
    then failure head c checkpoint_boundary_invalid
    else details head c pending none (head.sequence - c.last_event_sequence)
        ledger_verification_pending

module _ (C : Crypto) (checkpoint_json : CheckpointPayload → Bytes) where
  -- A checkpoint whose key was looked up; `IntegritySigningError` is caught.
  unfoldable pub status_with_key : Result Bytes → Checkpoint → AuditDb → Report
  unfolding is_linked compare_head
  status_with_key (err e) c db =
      unavailable_report (ledger_head db.ledger) checkpoint_key_unavailable
  status_with_key (ok public_key) c db =
      let head = ledger_head db.ledger in
      if checkpoint_is_valid C checkpoint_json c public_key && is_linked c db.checkpoints
      then compare_head head c db.ledger.events
      else failure head c checkpoint_invalid

  unfoldable pub status_of : Option Checkpoint → AuditDb → Report
  unfolding status_with_key
  status_of none db = unavailable_report (ledger_head db.ledger) checkpoint_unavailable
  status_of (some c) db = status_with_key (public_key_der_for C db.ledger c.key_id) c db

  -- `ledger_checkpoint_status`
  unfoldable pub ledger_checkpoint_status : AuditDb → Report
  unfolding latest_checkpoint status_of
  ledger_checkpoint_status db = status_of (latest_checkpoint db) db
