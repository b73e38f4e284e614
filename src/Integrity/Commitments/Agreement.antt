-- ===== src/Integrity/Commitments/Agreement.antt =====
-- What `commit_prediction` writes passes the check of `verify_market_integrity_records`.
use mathlib.Core.Path.{subst}
use gotrendlabs.Prelude.{
  ℕ, ◌+◌, ◌≡◌, true, false, Option, none, some, [], ◌∷◌, ◌++◌, if◌then◌else◌, Result, ok, ◌>>=◌,
  Succeeds, Succeeds-bind, Succeeds-and, refl, sym, ap, ◌∙◌, ==_refl,
}
use gotrendlabs.Prelude.Lists.{length}
use gotrendlabs.Db.{ActionType, initial, reinforcement, revision}
use gotrendlabs.Integrity.Store.{Bytes, Event, IntegrityDb, Crypto, IsSigner, public_key_der_for}
use gotrendlabs.Integrity.Ledger.{signing_key, ledger_head, event_payload, append_ledger_event}
use gotrendlabs.Integrity.Ledger.Append.{
  ◌and◌, IsIntact, signature_of, own_key, public_key_der_for-insert, append_ledger_event-Succeeds,
}
use gotrendlabs.Integrity.Ledger.Extending.{Extends, append_ledger_event-Extends}
use gotrendlabs.Integrity.Ledger.Keys.{with_key, with_key-IsIntact, remember_public_key-eq}
use gotrendlabs.Integrity.CommitmentStore.{
  action, CommitmentPayload, Commitment, CommitmentDb, Environment,
}
use gotrendlabs.Integrity.Commitments.{
  Joined, hash_of, id_of, user_commitment, signed_prediction, commitment_of, previous_commitment,
  commitment_payload, commitment_row, commitment_entry, write_commitment, commit_joined,
  commit_missing, commit_prediction,
}
use gotrendlabs.Integrity.Commitments.Checking.{
  same_value, same_id, signed_record_core_is_valid, columns_are_valid, check_owner, check_with_key,
  check_commitment,
}

same_action_refl : (a : ActionType) → same_value (action a) (action a) ≡ true
same_action_refl initial = refl
same_action_refl reinforcement = refl
same_action_refl revision = refl

same_hash_refl : (o : Option Commitment) → same_value (hash_of o) (hash_of o) ≡ true
same_hash_refl none = refl
same_hash_refl (some c) = ==_refl c.commitment_hash

same_id_refl : (o : Option ℕ) → same_id o o ≡ true
same_id_refl none = refl
same_id_refl (some n) = ==_refl n

module _ (C : Crypto) (E : Environment) (commitment_json : CommitmentPayload → Bytes) where
  -- The row that is written when the signer answers.
  abbrev signed_row : ℕ → Joined → ℕ → Option Commitment → ℕ → ℕ → Commitment
  signed_row id j occurred_at previous owner value =
      let payload = commitment_payload C E commitment_json j occurred_at previous owner in
      let canonical = commitment_json payload in
      commitment_row C E commitment_json id j occurred_at previous payload
        (canonical, C.sha256_hex canonical, signature_of C value)

  abbrev digest_of : Joined → ℕ → Option Commitment → ℕ → ℕ
  digest_of j occurred_at previous owner =
      C.sha256_hex
        (commitment_json (commitment_payload C E commitment_json j occurred_at previous owner))

  written-core :
      IsSigner C
      → (id : ℕ) (j : Joined) (now : ℕ) (previous : Option Commitment) (owner value : ℕ)
      → C.sign (digest_of j now previous owner) ≡ some value
      → signed_record_core_is_valid C E commitment_json
          (signed_row id j now previous owner value)
          C.public_key
        ≡ true
  unfolding signed_record_core_is_valid commitment_row commitment_payload
  written-core law id j now previous owner value h =
      ==_refl (digest_of j now previous owner)
      and ==_refl (digest_of j now previous owner)
      and law.verifies (digest_of j now previous owner) value h
      and refl
      and ==_refl (C.sha256_hex C.public_key)
      and refl
      and refl

  written-columns :
      (id : ℕ) (j : Joined) (previous : Option Commitment) (owner value : ℕ)
      → columns_are_valid C E commitment_json j.prediction j.market_slug previous
          (signed_row id j j.prediction.created_at previous owner value)
        ≡ true
  unfolding columns_are_valid commitment_row commitment_payload
  written-columns id j previous owner value =
      same_id_refl (id_of previous)
      and same_hash_refl previous
      and ==_refl j.prediction.position_sequence
      and ==_refl j.prediction.id
      and same_action_refl j.prediction.action_type
      and ==_refl j.prediction.market_id
      and ==_refl j.prediction.market_id
      and ==_refl j.market_slug
      and ==_refl j.prediction.market_option_id
      and ==_refl j.prediction.stake_amount
      and ==_refl (C.json_default j.prediction.created_at)
      and ==_refl (C.json_default j.prediction.created_at)

  written-check :
      IsSigner C
      → (id : ℕ) (j : Joined) (previous : Option Commitment) (owner value : ℕ) (db : IntegrityDb)
      → IsIntact C db
      → user_commitment E j.prediction.user_id ≡ ok owner
      → C.sign (digest_of j j.prediction.created_at previous owner) ≡ some value
      → check_commitment C E commitment_json j.prediction j.market_slug
          (some j.definition)
          previous
          (signed_row id j j.prediction.created_at previous owner value)
          db
        ≡ ok true
  unfolding check_commitment commitment_row commitment_payload
  written-check law id j previous owner value db intact known h =
      let now = j.prediction.created_at in
      let row = signed_row id j now previous owner value in
      ap
        (check_with_key C E commitment_json j.prediction j.market_slug (some j.definition) previous
          row)
        (own_key C db intact)
      ∙ ap
          (λ b.
            if b
            then check_owner C E commitment_json (some j.definition) row
                (user_commitment E j.prediction.user_id)
            else ok false)
          (written-core law id j now previous owner value h
            and written-columns id j previous owner value)
      ∙ ap (check_owner C E commitment_json (some j.definition) row) known
      ∙ ap ok
          (==_refl owner and (==_refl j.definition.id and ==_refl j.definition.definition_version))

  -- A commitment of a prediction was added that the check accepts, and one event to the ledger.
  pub record IsCommitted (j : Joined) (previous : Option Commitment) (db : CommitmentDb)
      (r : CommitmentDb × Commitment) : Type 0 where
    pub intact : IsIntact C r.0.ledger
    pub added : r.0.commitments ≡ db.commitments ++ r.1 ∷ []
    pub logged : (event : Event) × (r.0.ledger.events ≡ db.ledger.events ++ event ∷ [])
    pub keys :
        (key_id : ℕ)
        → public_key_der_for C db.ledger key_id ≡ public_key_der_for C r.0.ledger key_id
    pub checked :
        check_commitment C E commitment_json j.prediction j.market_slug
          (some j.definition)
          previous
          r.1
          r.0.ledger
        ≡ ok true

  -- What the service relies on: the signer answers.
  abbrev pub Answers : Type 0
  Answers = (digest : ℕ) → (value : ℕ) × (C.sign digest ≡ some value)

  write_commitment-IsCommitted :
      IsSigner C
      → Answers
      → (j : Joined) (previous : Option Commitment) (owner value : ℕ) (db : CommitmentDb)
      → IsIntact C db.ledger
      → user_commitment E j.prediction.user_id ≡ ok owner
      → C.sign (digest_of j j.prediction.created_at previous owner) ≡ some value
      → Succeeds (IsCommitted j previous db) (
          write_commitment C E commitment_json j j.prediction.created_at previous
            (commitment_payload C E commitment_json j j.prediction.created_at previous owner)
            (some value)
            db)
  write_commitment-IsCommitted law answers j previous owner value db intact known h =
      let now = j.prediction.created_at in
      let ledger = with_key C value now db.ledger in
      let row = signed_row (length db.commitments + 1) j now previous owner value in
      let entry = commitment_entry C E commitment_json row in
      let answer =
        answers (C.sha256_hex (C.canonical_json (event_payload C entry (ledger_head ledger)))) in
      let after : IntegrityDb × Event → Result (CommitmentDb × Commitment) =
        λ r. ok (record db { ledger = r.0; commitments = db.commitments ++ row ∷ [] }, row) in
      subst (Succeeds (IsCommitted j previous db))
        (sym (
          ap (λ m. m >>= λ l. append_ledger_event C entry l >>= after)
            (remember_public_key-eq C value now db.ledger intact)))
        (Succeeds-bind
          (λ r. (IsIntact C r.0 × (r.0.events ≡ ledger.events ++ r.1 ∷ [])) × Extends C ledger r)
          (IsCommitted j previous db) (append_ledger_event C entry ledger) after
          (Succeeds-and (λ r. IsIntact C r.0 × (r.0.events ≡ ledger.events ++ r.1 ∷ []))
            (Extends C ledger) (append_ledger_event C entry ledger)
            (append_ledger_event-Succeeds C law entry ledger answer.0
              (with_key-IsIntact C value now db.ledger intact) answer.1)
            (append_ledger_event-Extends C entry ledger))
          (λ r k. record {
            intact = k.0.0;
            added = refl;
            logged = (r.1, k.0.1);
            keys = λ key_id.
                public_key_der_for-insert C db.ledger (signing_key (signature_of C value) now)
                  db.ledger.events refl key_id
                ∙ k.1.1 key_id;
            checked =
                written-check law (length db.commitments + 1) j previous owner value r.0 k.0.0 known
                  h;
          }))

  -- A prediction of a market with a signed definition, without a commitment, committed for its user
  -- at its time of creation, in a ledger of the service, with a signer that answers and a secret or
  -- its replacement: the request succeeds, the ledger is one of the service with one event more, and
  -- the one commitment it adds is accepted by the check of the market's records, against the
  -- prediction, the definition and the user's newest commitment in the market.
  pub commit_prediction-IsCommitted :
      IsSigner C
      → Answers
      → (j : Joined) (owner : ℕ) (db : CommitmentDb) → IsIntact C db.ledger
      → commitment_of j.prediction.id db.commitments ≡ none
      → signed_prediction j.prediction.id db ≡ some j
      → user_commitment E j.prediction.user_id ≡ ok owner
      → Succeeds
          (IsCommitted j (previous_commitment j.prediction.user_id j.prediction.market_id db) db)
          (commit_prediction C E commitment_json j.prediction.id j.prediction.user_id
            j.prediction.created_at db)
  unfolding commit_prediction
  commit_prediction-IsCommitted law answers j owner db intact new found known =
      let p = j.prediction in
      let previous = previous_commitment p.user_id p.market_id db in
      let payload = commitment_payload C E commitment_json j p.created_at previous in
      let answer = answers (digest_of j p.created_at previous owner) in
      subst (Succeeds (IsCommitted j previous db))
        (sym (
          ap (λ o. commit_missing C E commitment_json p.id p.user_id p.created_at o db) new
          ∙ ap (λ o. commit_joined C E commitment_json p.user_id p.created_at o db) found
          ∙ ap
              (λ o. o >>= λ u.
                write_commitment C E commitment_json j p.created_at previous (payload u)
                  (C.sign (C.sha256_hex (commitment_json (payload u)))) db)
              known
          ∙ ap
              (λ o.
                write_commitment C E commitment_json j p.created_at previous (payload owner) o db)
              answer.1))
        (write_commitment-IsCommitted law answers j previous owner answer.0 db intact known
          answer.1)
