-- ===== src/Integrity/Commitments/Checking.antt =====
-- The commitments of a market in `verify_market_integrity_records`: each against its prediction,
-- the definition of the market and the commitment before it of the same user.
use gotrendlabs.Prelude.{
  ℕ, Bool, true, false, ◌&&◌, Option, none, some, List, [], ◌∷◌, ◌==◌, if◌then◌else◌, Result, ok,
  ◌>>=◌,
}
use gotrendlabs.Prelude.Table.{Table, lookup}
use gotrendlabs.Db.{ActionType, initial, reinforcement, revision, Prediction}
use gotrendlabs.Integrity.Store.{
  Bytes, IntegrityDb, protocol_v1, ed25519_sha_512, Crypto, public_key_der_for,
}
use gotrendlabs.Integrity.CommitmentStore.{
  Field, Field-discrete, Value, null, number, text, prediction, action, CommitmentPayload,
  Commitment, Definition, Environment,
}
use gotrendlabs.Integrity.Commitments.{user_commitment, hash_of, id_of}

-- `payload.get(field)`
abbrev pub get : Field → CommitmentPayload → Value
get field [] = null
get field ((f, v) ∷ rest) = elim (Field-discrete field f) [ yes _ ↦ v | no _ ↦ get field rest ]

-- `==` on the values, and on None or a number.
abbrev same_action : ActionType → ActionType → Bool
same_action initial initial = true
same_action reinforcement reinforcement = true
same_action revision revision = true
same_action _ _ = false

abbrev pub same_value : Value → Value → Bool
same_value null null = true
same_value (number m) (number n) = m == n
same_value (text s) (text t) = s == t
same_value (prediction m) (prediction n) = m == n
same_value (action a) (action b) = same_action a b
same_value _ _ = false

abbrev pub same_id : Option ℕ → Option ℕ → Bool
same_id none none = true
same_id (some m) (some n) = m == n
same_id _ _ = false

module _ (C : Crypto) (E : Environment) (commitment_json : CommitmentPayload → Bytes) where
  -- `_signed_record_core_is_valid` of a commitment
  unfoldable pub signed_record_core_is_valid : Commitment → Bytes → Bool
  signed_record_core_is_valid c public_key_der =
      (C.sha256_hex c.canonical_payload == c.commitment_hash)
      && (C.sha256_hex (commitment_json c.payload_json) == c.commitment_hash)
      && C.verify_signed_hash c.commitment_hash c.signature public_key_der
      && (c.algorithm == ed25519_sha_512)
      && (C.sha256_hex public_key_der == c.key_fingerprint)
      && (c.protocol_version == protocol_v1)
      && same_value (get Field.protocol_version c.payload_json) (text c.protocol_version)

  -- The conditions between it and `_user_commitment`.
  unfoldable pub columns_are_valid : Prediction → ℕ → Option Commitment → Commitment → Bool
  columns_are_valid p market_slug previous c =
      let payload = c.payload_json in
      same_id c.previous_commitment_id (id_of previous)
      && same_value (get Field.previous_commitment_hash payload) (hash_of previous)
      && same_value (get Field.position_sequence payload) (number p.position_sequence)
      && same_value (get Field.action_id payload) (prediction p.id)
      && same_value (get Field.action_type payload) (action p.action_type)
      && same_value (get Field.market_id payload) (number p.market_id)
      && (c.market_id == p.market_id)
      && same_value (get Field.market_slug payload) (text market_slug)
      && same_value (get Field.option_id payload) (number p.market_option_id)
      && same_value (get Field.stake payload) (number p.stake_amount)
      && same_value (get Field.server_timestamp payload) (text (C.json_default p.created_at))
      && same_value (get Field.server_timestamp payload) (text (C.json_default c.signed_at))

  -- The conditions after it.
  abbrev pub is_of_definition : Option Definition → Commitment → Bool
  is_of_definition none c = false
  is_of_definition (some d) c =
      (c.definition_id == d.id)
      && same_value (get Field.definition_version c.payload_json) (number d.definition_version)

  abbrev pub check_owner : Option Definition → Commitment → Result ℕ → Result Bool
  check_owner definition c answer = answer >>= λ owner. ok (
      same_value (get Field.user_commitment c.payload_json) (text owner)
      && is_of_definition definition c)

  abbrev pub check_with_key :
      Prediction
      → ℕ
      → Option Definition
      → Option Commitment
      → Commitment
      → Result Bytes
      → Result Bool
  check_with_key p market_slug definition previous c key = key >>= λ public_key_der.
      if signed_record_core_is_valid c public_key_der && columns_are_valid p market_slug previous c
      then check_owner definition c (user_commitment E p.user_id)
      else ok false

  -- `valid_commitment`; what a missing key or a missing secret raises is not caught.
  unfoldable pub check_commitment :
      Prediction
      → ℕ
      → Option Definition
      → Option Commitment
      → Commitment
      → IntegrityDb
      → Result Bool
  check_commitment p market_slug definition previous c db =
      check_with_key p market_slug definition previous c (public_key_der_for C db c.key_id)

-- What the loop keeps.
pub record Progress : Type 0 where
  pub previous_by_user : Table Commitment
  pub commitments_valid : Bool
  pub missing_commitment : Bool

unfoldable pub no_progress : Progress
no_progress = record { previous_by_user = []; commitments_valid = true; missing_commitment = false }

module _ (C : Crypto) (E : Environment) (commitment_json : CommitmentPayload → Bytes) where
  -- A round of the loop, for a prediction with the commitment it has.
  abbrev pub check_row :
      ℕ
      → Option Definition
      → IntegrityDb
      → Prediction
      → Option Commitment
      → Progress
      → Result Progress
  check_row market_slug definition db p none progress =
      ok (record progress { commitments_valid = false; missing_commitment = true })
  check_row market_slug definition db p (some c) progress = do
    let previous = lookup p.user_id progress.previous_by_user
    valid ← check_commitment C E commitment_json p market_slug definition previous c db
    ok (record progress {
      previous_by_user = (p.user_id, c) ∷ progress.previous_by_user;
      commitments_valid = progress.commitments_valid && valid;
    })

  -- The loop over the rows, in the order of the query.
  unfoldable pub check_rows :
      ℕ
      → Option Definition
      → IntegrityDb
      → List (Prediction × Option Commitment)
      → Progress
      → Result Progress
  check_rows market_slug definition db [] progress = ok progress
  check_rows market_slug definition db ((p, o) ∷ rows) progress =
      check_row market_slug definition db p o progress >>= check_rows market_slug definition db rows
