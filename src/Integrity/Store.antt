-- ===== src/Integrity/Store.antt =====
-- What the integrity protocol stores, and the cryptography it calls. Texts and timestamps are
-- numbers, 0 the empty text; bytes are a list.
use gotrendlabs.Prelude.{
  ℕ, Bool, true, false, Option, none, some, List, [], ◌∷◌, ◌==◌, if◌then◌else◌, Result, ok, err,
  key_unavailable, ◌≡◌,
}
use native.Mathlib.Decide.{ℕ_discrete}
use gotrendlabs.Prelude.Table.{Table, lookup}

-- The keys of the object that is hashed for an event; `other` is a key no code writes.
pub data Key : Type 0 where
  causation_id correlation_id entity_identifier entity_type event_type market_id : Key
  occurred_at payload_hash payload_reference payload_snapshot previous_event_hash : Key
  protocol_version sequence : Key
  other : ℕ → Key

abbrev pub Key-discrete : Discrete Key
Key-discrete = hlevel (ℕ_discrete)

abbrev pub Bytes : Type 0
Bytes = List ℕ

-- A JSON value; `object` is a nested one, which the protocol never opens.
pub data Value : Type 0 where
  null : Value
  number text object : ℕ → Value

-- A JSON object.
abbrev pub Payload : Type 0
Payload = List (Key × Value)

-- `payload.get(key, default)`
abbrev pub get_or : Value → Key → Payload → Value
get_or default key [] = default
get_or default key ((k, v) ∷ rest) = elim (Key-discrete key k) [
  | yes _ ↦ v
  | no _ ↦ get_or default key rest
]

-- `==` on values
abbrev pub same_value : Value → Value → Bool
same_value null null = true
same_value (number m) (number n) = m == n
same_value (text s) (text t) = s == t
same_value (object x) (object y) = x == y
same_value _ _ = false

-- None, or a value.
abbrev pub or_null : (ℕ → Value) → Option ℕ → Value
or_null f none = null
or_null f (some n) = f n

-- A row of integrity_ledger_events.
pub record Event : Type 0 where
  pub sequence : ℕ
  pub protocol_version : ℕ
  pub event_type : ℕ
  pub entity_type : ℕ
  pub entity_identifier : ℕ
  pub market_id : Option ℕ
  pub payload_reference : ℕ
  pub payload_hash : ℕ
  pub canonical_payload : Bytes
  pub payload_json : Payload
  pub previous_event_hash : ℕ
  pub event_hash : ℕ
  pub signature : ℕ
  pub algorithm : ℕ
  pub key_id : ℕ
  pub key_fingerprint : ℕ
  pub correlation_id : Option ℕ
  pub causation_id : Option ℕ
  pub occurred_at : ℕ
  pub created_at : ℕ

-- A row of integrity_signing_keys.
pub record SigningKey : Type 0 where
  pub algorithm : ℕ
  pub key_fingerprint : ℕ
  pub public_key_der : Bytes
  pub created_at : ℕ

-- The events are held in the order of their sequence.
pub record IntegrityDb : Type 0 where
  pub events : List Event
  pub keys : Table SigningKey

-- PROTOCOL_VERSION and SIGNING_ALGORITHM
abbrev pub protocol_v1 : ℕ
protocol_v1 = 1

abbrev pub ed25519_sha_512 : ℕ
ed25519_sha_512 = 2

-- `hashlib`, `json`, `cryptography` and the signer of the process (an in-memory key or AWS KMS).
pub record Crypto : Type 0 where
  pub sha256_hex : Bytes → ℕ
  pub canonical_json : Payload → Bytes
  -- `_json_default` of a timestamp
  pub json_default : ℕ → ℕ
  -- `verify_signed_hash(digest_hex, signature, public_key_der)`
  pub verify_signed_hash : ℕ → ℕ → Bytes → Bool
  -- The signer; none when it refuses.
  pub sign : ℕ → Option ℕ
  pub key_id : ℕ
  pub public_key : Bytes
  -- `key_id.startswith("local-ephemeral-ed25519")`
  pub is_ephemeral : ℕ → Bool
  pub kms_public_key : ℕ → Option Bytes

-- What the code relies on: a signature verifies under the key of the signer.
pub record IsSigner (C : Crypto) : Type 0 where
  pub verifies :
      (digest signature : ℕ)
      → C.sign digest ≡ some signature
      → C.verify_signed_hash digest signature C.public_key ≡ true

module _ (C : Crypto) where
  -- The end of `public_key_der_for`: an unregistered key of another signer.
  abbrev pub foreign_key : ℕ → Result Bytes
  foreign_key key_id =
      if C.is_ephemeral key_id
      then ok []
      else elim (C.kms_public_key key_id) [ none ↦ err key_unavailable | some key ↦ ok key ]

  abbrev pub unregistered_key : ℕ → Result Bytes
  unregistered_key key_id = if C.key_id == key_id then ok C.public_key else foreign_key key_id

  abbrev pub registered_key : ℕ → Option SigningKey → Result Bytes
  registered_key key_id none = unregistered_key key_id
  registered_key key_id (some row) = ok row.public_key_der

  -- `public_key_der_for`, with a cursor
  unfoldable pub public_key_der_for : IntegrityDb → ℕ → Result Bytes
  public_key_der_for db key_id = registered_key key_id (lookup key_id db.keys)
