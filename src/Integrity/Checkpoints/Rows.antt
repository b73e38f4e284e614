-- ===== src/Integrity/Checkpoints/Rows.antt =====
-- The row that the audit inserts is a valid checkpoint.
use gotrendlabs.Prelude.{
  ℕ, ◌<◌, ◌≡◌, true, ◌||◌, Option, none, some, List, [], ◌∷◌, ◌==◌, arith, refl, ap, ==_refl,
}
use gotrendlabs.Integrity.Store.{Bytes, Event, Crypto, IsSigner}
use gotrendlabs.Integrity.Ledger.{Head, Signature}
use gotrendlabs.Integrity.Ledger.Append.{◌and◌, signature_of}
use gotrendlabs.Integrity.Checkpoints.{
  valid_text, invalid_text, full, same_value, or_null, CheckpointPayload, Checkpoint,
  checkpoint_envelope, checkpoint_metadata,
}
use gotrendlabs.Integrity.Checkpoints.Status.{verified, hash_at, is_linked, compare_head}
use gotrendlabs.Integrity.Checkpoints.Auditing.{
  Verification, status_text, next_checkpoint_sequence, previous_hash_of, checkpoint_payload,
  checkpoint_row,
}

same_or_null : (o : Option ℕ) → same_value (or_null o) (or_null o) ≡ true
same_or_null none = refl
same_or_null (some n) = ==_refl n

-- A checkpoint that observed the head, and verified up to it.
pub compare_head-eq-verified :
    (head : Head) (c : Checkpoint) (events : List Event)
    → c.status ≡ valid_text
    → c.last_event_sequence ≡ c.observed_head_sequence
    → c.last_event_hash ≡ c.observed_head_hash
    → head.sequence ≡ c.observed_head_sequence
    → head.event_hash ≡ c.observed_head_hash
    → (compare_head head c events).status ≡ verified
unfolding compare_head
compare_head-eq-verified head c events s a b d e = ground arith

-- Checkpoints are numbered from 1.
abbrev pub IsNumbered : Option Checkpoint → Type 0
IsNumbered none = Unit
IsNumbered (some latest) = 0 < latest.checkpoint_sequence

-- The new row is linked to the one before.
pub row_links :
    (row : Checkpoint) (older : List Checkpoint)
    → row.checkpoint_sequence
      ≡ next_checkpoint_sequence (elim older [ [] ↦ none | c ∷ rest ↦ some c ])
    → row.previous_checkpoint_hash ≡ previous_hash_of (elim older [ [] ↦ none | c ∷ rest ↦ some c ])
    → IsNumbered (elim older [ [] ↦ none | c ∷ rest ↦ some c ])
    → is_linked row (row ∷ older) ≡ true
unfolding is_linked hash_at
row_links row [] n h k = ground arith
row_links row (c ∷ older) n h k = ground arith

module _ (C : Crypto) (checkpoint_json : CheckpointPayload → Bytes) where
  pub row_metadata :
      (v : Verification) (audit_type now : ℕ) (latest : Option Checkpoint) (canonical : Bytes)
      (digest : ℕ) (signed : Signature)
      → checkpoint_metadata C checkpoint_json
          (checkpoint_row C checkpoint_json v audit_type now latest canonical digest signed)
        ≡ true
  unfolding checkpoint_metadata checkpoint_row checkpoint_payload
  row_metadata v audit_type now latest canonical digest signed =
      ==_refl (next_checkpoint_sequence latest)
      and ==_refl audit_type
      and ==_refl (status_text v.scan.valid)
      and same_or_null v.first_event_sequence
      and ==_refl v.scan.last_verified_sequence
      and ==_refl v.scan.last_verified_hash
      and ==_refl v.head.sequence
      and ==_refl v.head.event_hash
      and ==_refl v.scan.verified_event_count
      and ==_refl (previous_hash_of latest)
      and same_or_null v.scan.first_invalid_sequence
      and ==_refl _
      and refl
      and refl
      and ==_refl (C.json_default now)

  pub row_envelope :
      IsSigner C
      → (v : Verification) (now value : ℕ) (latest : Option Checkpoint) → v.scan.valid ≡ true
      → C.sign
          (C.sha256_hex (checkpoint_json (checkpoint_payload C checkpoint_json v full now latest)))
        ≡ some value
      → checkpoint_envelope C checkpoint_json
          (checkpoint_row C checkpoint_json v full now latest
            (checkpoint_json (checkpoint_payload C checkpoint_json v full now latest))
            (C.sha256_hex
              (checkpoint_json (checkpoint_payload C checkpoint_json v full now latest)))
            (signature_of C value))
          C.public_key
        ≡ true
  unfolding checkpoint_envelope checkpoint_row
  row_envelope law v now value latest valid h =
      let digest =
        C.sha256_hex (checkpoint_json (checkpoint_payload C checkpoint_json v full now latest)) in
      ==_refl digest
      and ==_refl digest
      and law.verifies digest value h
      and refl
      and ==_refl (C.sha256_hex C.public_key)
      and refl
      and refl
      and ==_refl now
      and ap (λ b. (status_text b == valid_text) || (status_text b == invalid_text)) valid
      and refl
