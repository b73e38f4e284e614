-- ===== src/Integrity/CommitmentStore.antt =====
-- What `commit_prediction` stores and reads, and what it is given.
use gotrendlabs.Prelude.{ℕ, Bool, Option, List}
use gotrendlabs.Prelude.Table.{Table}
use gotrendlabs.Db.{ActionType, Prediction}
use gotrendlabs.Integrity.Store.{Bytes, IntegrityDb}

-- The keys of the object that is signed for a prediction.
pub data Field : Type 0 where
  action_id action_type definition_version market_id market_slug option_id : Field
  position_sequence previous_commitment_hash protocol_version server_timestamp : Field
  stake user_commitment : Field

abbrev pub Field-discrete : Discrete Field
Field-discrete = hlevel

-- Their values; `prediction` is the text "prediction:" with an id behind it.
pub data Value : Type 0 where
  null : Value
  number text prediction : ℕ → Value
  action : ActionType → Value

abbrev pub CommitmentPayload : Type 0
CommitmentPayload = List (Field × Value)

-- A row of prediction_commitments.
pub record Commitment : Type 0 where
  pub id : ℕ
  pub prediction_id : ℕ
  pub market_id : ℕ
  pub definition_id : ℕ
  pub previous_commitment_id : Option ℕ
  pub protocol_version : ℕ
  pub canonical_payload : Bytes
  pub payload_json : CommitmentPayload
  pub commitment_hash : ℕ
  pub signature : ℕ
  pub algorithm : ℕ
  pub key_id : ℕ
  pub key_fingerprint : ℕ
  pub signed_at : ℕ

-- What is read of a row of market_integrity_definitions.
pub record Definition : Type 0 where
  pub id : ℕ
  pub definition_version : ℕ

-- `predictions` by id, `slugs` and `definitions` by market.
pub record CommitmentDb : Type 0 where
  pub ledger : IntegrityDb
  pub commitments : List Commitment
  pub predictions : Table Prediction
  pub slugs : Table ℕ
  pub definitions : Table Definition

-- The environment variables and what formats texts: `hmac` the hexadecimal HMAC-SHA-256 of a user
-- under a secret, `str` a number, `reference` the text "prediction_commitment:" with an id behind it.
pub record Environment : Type 0 where
  pub secret : Option ℕ
  pub is_production : Bool
  pub development_secret : ℕ
  pub hmac : ℕ → ℕ → ℕ
  pub str : ℕ → ℕ
  pub reference : ℕ → ℕ
