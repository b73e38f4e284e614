-- ===== src/Integrity/Ledger.antt =====
-- The signed ledger: `append_ledger_event`, and the verification of its chain.
pub mod Append
pub mod Binding
pub mod Keys
pub mod Extending
use gotrendlabs.Prelude.{
  ℕ, ◌+◌, ◌-◌, Bool, true, false, not, ◌&&◌, Option, none, some, List, [], ◌∷◌, ◌++◌, ◌==◌, ltb,
  leb, if◌then◌else◌, Result, ok, err, raise_if, ◌>>=◌, ◌>>◌, signing_refused, signing_key_mismatch,
}
use gotrendlabs.Prelude.Lists.{select, any}
use gotrendlabs.Prelude.Table.{lookup, insert_new}
use gotrendlabs.Integrity.Store.{
  Bytes, Key, Value, null, number, text, object, Payload, get_or, same_value, or_null, Event,
  SigningKey, IntegrityDb, protocol_v1, ed25519_sha_512, Crypto, public_key_der_for,
}

-- `payload.get(key)`
abbrev pub get : Key → Payload → Value
get = get_or null

-- What the caller of `append_ledger_event` gives.
pub record Entry : Type 0 where
  pub event_type : ℕ
  pub entity_type : ℕ
  pub entity_identifier : ℕ
  pub market_id : Option ℕ
  pub payload_reference : ℕ
  pub payload_hash : ℕ
  pub occurred_at : ℕ
  pub correlation_id : Option ℕ
  pub causation_id : Option ℕ
  pub payload_snapshot : Option ℕ

-- `Signature`
pub record Signature : Type 0 where
  pub value : ℕ
  pub algorithm : ℕ
  pub key_id : ℕ
  pub key_fingerprint : ℕ
  pub public_key_der : Bytes

-- `_ledger_head`
pub record Head : Type 0 where
  pub sequence : ℕ
  pub event_hash : ℕ

abbrev pub head_after : Head → List Event → Head
head_after head [] = head
head_after head (event ∷ events) =
    head_after (record { sequence = event.sequence; event_hash = event.event_hash }) events

unfoldable pub ledger_head : IntegrityDb → Head
ledger_head db = head_after (record { sequence = 0; event_hash = 0 }) db.events

module _ (C : Crypto) where
  -- `sign_payload`: the canonical bytes, their digest, the signature.
  abbrev pub signed_by : Option ℕ → Bytes → Result (Bytes × ℕ × Signature)
  signed_by none canonical = err signing_refused
  signed_by (some signature) canonical = ok (
    canonical,
    C.sha256_hex canonical,
    record {
      value = signature;
      algorithm = ed25519_sha_512;
      key_id = C.key_id;
      key_fingerprint = C.sha256_hex C.public_key;
      public_key_der = C.public_key;
    },
  )

  unfoldable pub sign_payload : Payload → Result (Bytes × ℕ × Signature)
  sign_payload payload =
      let canonical = C.canonical_json payload in
      signed_by (C.sign (C.sha256_hex canonical)) canonical

  -- What is hashed and signed for an event.
  unfoldable pub event_payload : Entry → Head → Payload
  event_payload entry previous =
      (Key.causation_id, or_null text entry.causation_id)
      ∷ (Key.correlation_id, or_null text entry.correlation_id)
      ∷ (Key.entity_identifier, text entry.entity_identifier)
      ∷ (Key.entity_type, text entry.entity_type)
      ∷ (Key.event_type, text entry.event_type)
      ∷ (Key.market_id, or_null number entry.market_id)
      ∷ (Key.occurred_at, text (C.json_default entry.occurred_at))
      ∷ (Key.payload_hash, text entry.payload_hash)
      ∷ (Key.payload_reference, text entry.payload_reference)
      ∷ (Key.payload_snapshot, or_null object entry.payload_snapshot)
      ∷ (Key.previous_event_hash, text previous.event_hash)
      ∷ (Key.protocol_version, text protocol_v1)
      ∷ (Key.sequence, number (previous.sequence + 1))
      ∷ []

  -- The inserted row.
  unfoldable pub event_row : Entry → Head → Bytes → ℕ → Signature → Event
  unfolding event_payload
  event_row entry previous canonical event_hash signed = record {
    sequence = previous.sequence + 1;
    protocol_version = protocol_v1;
    event_type = entry.event_type;
    entity_type = entry.entity_type;
    entity_identifier = entry.entity_identifier;
    market_id = entry.market_id;
    payload_reference = entry.payload_reference;
    payload_hash = entry.payload_hash;
    canonical_payload = canonical;
    payload_json = event_payload entry previous;
    previous_event_hash = previous.event_hash;
    event_hash = event_hash;
    signature = signed.value;
    algorithm = signed.algorithm;
    key_id = signed.key_id;
    key_fingerprint = signed.key_fingerprint;
    correlation_id = entry.correlation_id;
    causation_id = entry.causation_id;
    occurred_at = entry.occurred_at;
    created_at = entry.occurred_at;
  }

-- `remember_public_key`
abbrev pub has_fingerprint : ℕ → Option SigningKey → Bool
has_fingerprint fingerprint none = false
has_fingerprint fingerprint (some row) = row.key_fingerprint == fingerprint

abbrev pub signing_key : Signature → ℕ → SigningKey
signing_key signed created_at = record {
  algorithm = signed.algorithm;
  key_fingerprint = signed.key_fingerprint;
  public_key_der = signed.public_key_der;
  created_at = created_at;
}

unfoldable pub remember_public_key : Signature → ℕ → IntegrityDb → Result IntegrityDb
remember_public_key signed created_at db = do
  let keys = insert_new signed.key_id (signing_key signed created_at) db.keys
  raise_if (not (has_fingerprint signed.key_fingerprint (lookup signed.key_id keys)))
      signing_key_mismatch
  ok (record { events = db.events; keys = keys })

module _ (C : Crypto) where
  -- `append_ledger_event`, with the inserted row.
  unfoldable pub append_ledger_event : Entry → IntegrityDb → Result (IntegrityDb × Event)
  unfolding ledger_head sign_payload event_payload event_row remember_public_key
  append_ledger_event entry db = do
    let previous = ledger_head db
    s ← sign_payload C (event_payload C entry previous)
    known ← remember_public_key s.2 entry.occurred_at db
    let event = event_row C entry previous s.0 s.1 s.2
    ok (record { events = known.events ++ event ∷ []; keys = known.keys }, event)

  -- `_ledger_event_is_valid`: the hashes and the envelope, ...
  unfoldable pub envelope_is_valid : Event → Bytes → Bool
  envelope_is_valid event public_key_der =
      (event.event_hash == C.sha256_hex event.canonical_payload)
      && (C.sha256_hex (C.canonical_json event.payload_json) == event.event_hash)
      && (event.protocol_version == protocol_v1)
      && (event.created_at == event.occurred_at)
      && (event.algorithm == ed25519_sha_512)
      && (C.sha256_hex public_key_der == event.key_fingerprint)
      && C.verify_signed_hash event.event_hash event.signature public_key_der

  -- ... and the columns against the signed snapshot.
  unfoldable pub metadata_is_valid : Event → Bool
  metadata_is_valid event =
      let payload = event.payload_json in
      same_value (get_or (text 0) Key.previous_event_hash payload) (text event.previous_event_hash)
      && same_value (get Key.sequence payload) (number event.sequence)
      && same_value (get Key.protocol_version payload) (text event.protocol_version)
      && same_value (get Key.event_type payload) (text event.event_type)
      && same_value (get Key.entity_type payload) (text event.entity_type)
      && same_value (get Key.entity_identifier payload) (text event.entity_identifier)
      && same_value (get Key.market_id payload) (or_null number event.market_id)
      && same_value (get Key.payload_hash payload) (text event.payload_hash)
      && same_value (get Key.payload_reference payload) (text event.payload_reference)
      && same_value (get Key.occurred_at payload) (text (C.json_default event.occurred_at))
      && same_value (get Key.correlation_id payload) (or_null text event.correlation_id)
      && same_value (get Key.causation_id payload) (or_null text event.causation_id)

  unfoldable pub ledger_event_is_valid : Event → Bytes → Bool
  unfolding envelope_is_valid metadata_is_valid
  ledger_event_is_valid event public_key_der =
      envelope_is_valid event public_key_der && metadata_is_valid event
