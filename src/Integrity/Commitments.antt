-- ===== src/Integrity/Commitments.antt =====
-- `commit_prediction`: the signed commitment of a prediction. The state is the ledger, the
-- commitments, oldest first, whose ids count from 1, and what the queries read of the predictions,
-- the slugs of the markets and their signed definitions. Texts are numbers.
pub mod Checking
pub mod Agreement
pub mod Loop
pub mod Verdict
use mathlib.Core.Option
use gotrendlabs.Prelude.{
  ℕ, ◌+◌, Bool, true, false, ◌&&◌, Option, none, some, List, [], ◌∷◌, ◌++◌, ◌==◌, leb,
  if◌then◌else◌, Result, ok, err, ◌>>=◌, unsigned_definition, commitment_secret_required,
}
use gotrendlabs.Prelude.Lists.{length}
use gotrendlabs.Prelude.Table.{Table, lookup}
use gotrendlabs.Db.{Prediction}
use gotrendlabs.Integrity.Store.{Bytes, IntegrityDb, protocol_v1, Crypto}
use gotrendlabs.Integrity.CommitmentStore.{
  Field, Value, null, number, text, prediction, action, CommitmentPayload, Commitment, Definition,
  CommitmentDb, Environment,
}
use gotrendlabs.Integrity.Ledger.{
  Entry, Signature, signed_by, remember_public_key, append_ledger_event,
}

-- The texts of the event.
abbrev pub prediction_committed : ℕ
prediction_committed = 1

abbrev pub prediction_entity : ℕ
prediction_entity = 2

-- `_user_commitment`
abbrev under_secret : Environment → ℕ → Option ℕ → Result ℕ
under_secret E user_id (some secret) = ok (E.hmac secret user_id)
under_secret E user_id none =
    if E.is_production
    then err commitment_secret_required
    else ok (E.hmac E.development_secret user_id)

unfoldable pub user_commitment : Environment → ℕ → Result ℕ
user_commitment E user_id = under_secret E user_id E.secret

-- The prediction with its market's slug and definition.
pub record Joined : Type 0 where
  pub prediction : Prediction
  pub market_slug : ℕ
  pub definition : Definition

abbrev join_definition : Prediction → Option ℕ → Option Definition → Option Joined
join_definition p (some slug) (some definition) =
    some (record { prediction = p; market_slug = slug; definition = definition })
join_definition p _ _ = none

abbrev join_market : CommitmentDb → Option Prediction → Option Joined
join_market db none = none
join_market db (some p) =
    join_definition p (lookup p.market_id db.slugs) (lookup p.market_id db.definitions)

unfoldable pub signed_prediction : ℕ → CommitmentDb → Option Joined
signed_prediction prediction_id db = join_market db (lookup prediction_id db.predictions)

-- SELECT … WHERE prediction_id = …
unfoldable pub commitment_of : ℕ → List Commitment → Option Commitment
commitment_of prediction_id [] = none
commitment_of prediction_id (c ∷ cs) =
    if c.prediction_id == prediction_id then some c else commitment_of prediction_id cs

-- The sequence of a commitment's prediction, when it is the user's in the market.
abbrev sequence_of : ℕ → ℕ → Option Prediction → Option ℕ
sequence_of user_id market_id none = none
sequence_of user_id market_id (some p) =
    if (p.user_id == user_id) && (p.market_id == market_id) then some p.position_sequence else none

-- ORDER BY position_sequence DESC, id DESC LIMIT 1: of two commitments, given the older one first.
abbrev newer : Option (ℕ × Commitment) → Commitment → Option ℕ → Option (ℕ × Commitment)
newer best c none = best
newer none c (some sequence) = some (sequence, c)
newer (some (highest, b)) c (some sequence) =
    if leb highest sequence then some (sequence, c) else some (highest, b)

unfoldable pub newest :
    ℕ → ℕ → Table Prediction → Option (ℕ × Commitment) → List Commitment → Option (ℕ × Commitment)
newest user_id market_id predictions best [] = best
newest user_id market_id predictions best (c ∷ cs) =
    newest user_id market_id predictions
      (newer best c (sequence_of user_id market_id (lookup c.prediction_id predictions))) cs

-- `previous`
unfoldable pub previous_commitment : ℕ → ℕ → CommitmentDb → Option Commitment
unfolding newest
previous_commitment user_id market_id db =
    Option.map (λ b. b.1) (newest user_id market_id db.predictions none db.commitments)

abbrev pub hash_of : Option Commitment → Value
hash_of none = null
hash_of (some c) = text c.commitment_hash

abbrev pub id_of : Option Commitment → Option ℕ
id_of = Option.map (λ c. c.id)

module _ (C : Crypto) (E : Environment) (commitment_json : CommitmentPayload → Bytes) where
  -- `payload`, its keys in the canonical order.
  unfoldable pub commitment_payload : Joined → ℕ → Option Commitment → ℕ → CommitmentPayload
  commitment_payload j occurred_at previous owner =
      (Field.action_id, prediction j.prediction.id)
      ∷ (Field.action_type, action j.prediction.action_type)
      ∷ (Field.definition_version, number j.definition.definition_version)
      ∷ (Field.market_id, number j.prediction.market_id)
      ∷ (Field.market_slug, text j.market_slug)
      ∷ (Field.option_id, number j.prediction.market_option_id)
      ∷ (Field.position_sequence, number j.prediction.position_sequence)
      ∷ (Field.previous_commitment_hash, hash_of previous)
      ∷ (Field.protocol_version, text protocol_v1)
      ∷ (Field.server_timestamp, text (C.json_default occurred_at))
      ∷ (Field.stake, number j.prediction.stake_amount)
      ∷ (Field.user_commitment, text owner)
      ∷ []

  -- The inserted row.
  unfoldable pub commitment_row :
      ℕ → Joined → ℕ → Option Commitment → CommitmentPayload → Bytes × ℕ × Signature → Commitment
  commitment_row id j occurred_at previous payload s = record {
    id = id;
    prediction_id = j.prediction.id;
    market_id = j.prediction.market_id;
    definition_id = j.definition.id;
    previous_commitment_id = id_of previous;
    protocol_version = protocol_v1;
    canonical_payload = s.0;
    payload_json = payload;
    commitment_hash = s.1;
    signature = s.2.value;
    algorithm = s.2.algorithm;
    key_id = s.2.key_id;
    key_fingerprint = s.2.key_fingerprint;
    signed_at = occurred_at;
  }

  unfoldable pub commitment_entry : Commitment → Entry
  commitment_entry c = record {
    event_type = prediction_committed;
    entity_type = prediction_entity;
    entity_identifier = E.str c.prediction_id;
    market_id = some c.market_id;
    payload_reference = E.reference c.id;
    payload_hash = c.commitment_hash;
    occurred_at = c.signed_at;
    correlation_id = none;
    causation_id = none;
    payload_snapshot = none;
  }

  -- From the signature on, given the answer of the signer.
  abbrev pub write_commitment :
      Joined
      → ℕ
      → Option Commitment
      → CommitmentPayload
      → Option ℕ
      → CommitmentDb
      → Result (CommitmentDb × Commitment)
  write_commitment j occurred_at previous payload answer db = do
    s ← signed_by C answer (commitment_json payload)
    known ← remember_public_key s.2 occurred_at db.ledger
    let row = commitment_row (length db.commitments + 1) j occurred_at previous payload s
    r ← append_ledger_event C (commitment_entry row) known
    ok (record db { ledger = r.0; commitments = db.commitments ++ row ∷ [] }, row)

  abbrev pub commit_joined :
      ℕ → ℕ → Option Joined → CommitmentDb → Result (CommitmentDb × Commitment)
  commit_joined user_id occurred_at none db = err unsigned_definition
  commit_joined user_id occurred_at (some j) db = do
    let previous = previous_commitment user_id j.prediction.market_id db
    owner ← user_commitment E user_id
    let payload = commitment_payload j occurred_at previous owner
    let digest = C.sha256_hex (commitment_json payload)
    write_commitment j occurred_at previous payload (C.sign digest) db

  abbrev pub commit_missing :
      ℕ → ℕ → ℕ → Option Commitment → CommitmentDb → Result (CommitmentDb × Commitment)
  commit_missing prediction_id user_id occurred_at (some existing) db = ok (db, existing)
  commit_missing prediction_id user_id occurred_at none db =
      commit_joined user_id occurred_at (signed_prediction prediction_id db) db

  -- `commit_prediction`
  unfoldable pub commit_prediction : ℕ → ℕ → ℕ → CommitmentDb → Result (CommitmentDb × Commitment)
  commit_prediction prediction_id user_id occurred_at db =
      commit_missing prediction_id user_id occurred_at (commitment_of prediction_id db.commitments)
        db
