-- ===== src/Integrity/Checkpoints.antt =====
-- The signed checkpoints of the audit: `_checkpoint_is_valid`, `ledger_checkpoint_status`,
-- `_create_ledger_checkpoint`. A time is a number of seconds.
pub mod Status
pub mod Auditing
pub mod Rows
pub mod Full
pub mod Verdicts
pub mod Written
pub mod Honest
pub mod Intact
pub mod Sound
use gotrendlabs.Prelude.{
  ℕ, ◌+◌, ◌-◌, Bool, true, false, not, ◌&&◌, ◌||◌, Option, none, some, List, [], ◌∷◌, ◌==◌, ltb,
  leb, if◌then◌else◌, Result, ok, err, ◌>>=◌,
}
use gotrendlabs.Integrity.Store.{
  Bytes, Event, IntegrityDb, Crypto, protocol_v1, ed25519_sha_512, public_key_der_for,
}
use gotrendlabs.Integrity.Ledger.{Head, Signature, ledger_head, signed_by, remember_public_key}

-- The texts of the columns.
abbrev pub valid_text : ℕ
valid_text = 1

abbrev pub invalid_text : ℕ
invalid_text = 2

abbrev pub full : ℕ
full = 3

abbrev pub incremental : ℕ
incremental = 4

-- CHECKPOINT_VERIFIER_VERSION
abbrev pub verifier_v1 : ℕ
verifier_v1 = 5

-- The issue codes; 0 is the empty one.
abbrev pub checkpoint_unavailable : ℕ
checkpoint_unavailable = 10

abbrev pub checkpoint_key_unavailable : ℕ
checkpoint_key_unavailable = 11

abbrev pub checkpoint_invalid : ℕ
checkpoint_invalid = 12

abbrev pub ledger_chain_invalid : ℕ
ledger_chain_invalid = 13

abbrev pub ledger_head_regressed : ℕ
ledger_head_regressed = 14

abbrev pub ledger_head_changed : ℕ
ledger_head_changed = 15

abbrev pub checkpoint_boundary_invalid : ℕ
checkpoint_boundary_invalid = 16

abbrev pub ledger_verification_pending : ℕ
ledger_verification_pending = 17

-- The keys of the signed object, and what stands under them.
pub data Field : Type 0 where
  audit_type checkpoint_sequence failure_sequence first_event_sequence issue_code : Field
  invalid_market_ids last_event_hash last_event_sequence observed_head_hash : Field
  observed_head_sequence previous_checkpoint_hash protocol_version status verified_at : Field
  verified_event_count verifier_version : Field

abbrev pub Field-discrete : Discrete Field
Field-discrete = hlevel

pub data Value : Type 0 where
  null : Value
  number text : ℕ → Value
  numbers : List ℕ → Value

abbrev pub CheckpointPayload : Type 0
CheckpointPayload = List (Field × Value)

-- `payload.get(key)`
abbrev pub get : Field → CheckpointPayload → Value
get key [] = null
get key ((k, v) ∷ rest) = elim (Field-discrete key k) [ yes _ ↦ v | no _ ↦ get key rest ]

-- The comparisons of `_checkpoint_is_valid`: none of them is of a list.
abbrev pub same_value : Value → Value → Bool
same_value null null = true
same_value (number m) (number n) = m == n
same_value (text s) (text t) = s == t
same_value _ _ = false

abbrev pub or_null : Option ℕ → Value
or_null none = null
or_null (some n) = number n

-- A row of integrity_ledger_checkpoints.
pub record Checkpoint : Type 0 where
  pub checkpoint_sequence : ℕ
  pub audit_type : ℕ
  pub status : ℕ
  pub first_event_sequence : Option ℕ
  pub last_event_sequence : ℕ
  pub last_event_hash : ℕ
  pub observed_head_sequence : ℕ
  pub observed_head_hash : ℕ
  pub verified_event_count : ℕ
  pub previous_checkpoint_hash : ℕ
  pub failure_sequence : Option ℕ
  pub issue_code : ℕ
  pub protocol_version : ℕ
  pub verifier_version : ℕ
  pub canonical_payload : Bytes
  pub payload_json : CheckpointPayload
  pub checkpoint_hash : ℕ
  pub signature : ℕ
  pub algorithm : ℕ
  pub key_id : ℕ
  pub key_fingerprint : ℕ
  pub verified_at : ℕ
  pub created_at : ℕ

-- The checkpoints are held newest first.
pub record AuditDb : Type 0 where
  pub ledger : IntegrityDb
  pub checkpoints : List Checkpoint

-- `_latest_checkpoint`
unfoldable pub latest_checkpoint : AuditDb → Option Checkpoint
latest_checkpoint db = elim db.checkpoints [ [] ↦ none | c ∷ older ↦ some c ]

-- The canonical JSON of a checkpoint's object.
module _ (C : Crypto) (checkpoint_json : CheckpointPayload → Bytes) where
  -- `_checkpoint_is_valid`: the hashes, the signature and the envelope, ...
  unfoldable pub checkpoint_envelope : Checkpoint → Bytes → Bool
  checkpoint_envelope c public_key_der =
      (C.sha256_hex c.canonical_payload == c.checkpoint_hash)
      && (C.sha256_hex (checkpoint_json c.payload_json) == c.checkpoint_hash)
      && C.verify_signed_hash c.checkpoint_hash c.signature public_key_der
      && (c.algorithm == ed25519_sha_512)
      && (C.sha256_hex public_key_der == c.key_fingerprint)
      && (c.protocol_version == protocol_v1)
      && (c.verifier_version == verifier_v1)
      && (c.created_at == c.verified_at)
      && ((c.status == valid_text) || (c.status == invalid_text))
      && ((c.audit_type == full) || (c.audit_type == incremental))

  -- ... and the columns against the signed object.
  unfoldable pub checkpoint_metadata : Checkpoint → Bool
  checkpoint_metadata c =
      let payload = c.payload_json in
      same_value (get Field.checkpoint_sequence payload) (number c.checkpoint_sequence)
      && same_value (get Field.audit_type payload) (text c.audit_type)
      && same_value (get Field.status payload) (text c.status)
      && same_value (get Field.first_event_sequence payload) (or_null c.first_event_sequence)
      && same_value (get Field.last_event_sequence payload) (number c.last_event_sequence)
      && same_value (get Field.last_event_hash payload) (text c.last_event_hash)
      && same_value (get Field.observed_head_sequence payload) (number c.observed_head_sequence)
      && same_value (get Field.observed_head_hash payload) (text c.observed_head_hash)
      && same_value (get Field.verified_event_count payload) (number c.verified_event_count)
      && same_value (get Field.previous_checkpoint_hash payload) (text c.previous_checkpoint_hash)
      && same_value (get Field.failure_sequence payload) (or_null c.failure_sequence)
      && same_value (get Field.issue_code payload) (text c.issue_code)
      && same_value (get Field.protocol_version payload) (text c.protocol_version)
      && same_value (get Field.verifier_version payload) (text c.verifier_version)
      && same_value (get Field.verified_at payload) (text (C.json_default c.verified_at))

  unfoldable pub checkpoint_is_valid : Checkpoint → Bytes → Bool
  unfolding checkpoint_envelope checkpoint_metadata
  checkpoint_is_valid c public_key_der =
      checkpoint_envelope c public_key_der && checkpoint_metadata c
