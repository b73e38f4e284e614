-- ===== src/Integrity/Commitments/Verdict.antt =====
-- A committed prediction in the verification of its market's records.
use gotrendlabs.Prelude.{
  ℕ, ◌≡◌, ◌≢◌, none, some, List, ◌∷◌, ◌++◌, ok, Succeeds, Succeeds-map, ◌∙◌, ap,
}
use gotrendlabs.Prelude.Lists.{All}
use gotrendlabs.Prelude.Table.{lookup}
use gotrendlabs.Integrity.Store.{Bytes, Crypto, IsSigner}
use gotrendlabs.Integrity.CommitmentStore.{CommitmentPayload, CommitmentDb, Environment}
use gotrendlabs.Integrity.Commitments.{
  Joined, user_commitment, signed_prediction, commitment_of, previous_commitment, commit_prediction,
}
use gotrendlabs.Integrity.Commitments.Checking.{Progress, no_progress, check_rows, check_commitment}
use gotrendlabs.Integrity.Commitments.Agreement.{
  IsCommitted, Answers, commit_prediction-IsCommitted,
}
use gotrendlabs.Integrity.Ledger.Append.{IsIntact}
use gotrendlabs.Integrity.Commitments.Loop.{Row, commitments_are_valid, check_rows-insert}

module _ (C : Crypto) (E : Environment) (commitment_json : CommitmentPayload → Bytes) where
  -- A prediction of a market with a signed definition, without a commitment, committed for its user
  -- at its time of creation, in a ledger of the service, with a signer that answers and a secret or
  -- its replacement. The loop over the commitments can check the rows that stand before it in the
  -- order of the query, and the last of its user's that it meets there is the user's newest in the
  -- market; the rows after it are of other users. Then the request succeeds, and with the new row in
  -- its place the verdict on the market's commitments is what it was without it.
  pub commit_prediction-commitments_are_valid :
      IsSigner C
      → Answers C E commitment_json
      → (j : Joined) (owner : ℕ) (db : CommitmentDb) (before after : List Row) (s : Progress)
      → IsIntact C db.ledger
      → commitment_of j.prediction.id db.commitments ≡ none
      → signed_prediction j.prediction.id db ≡ some j
      → user_commitment E j.prediction.user_id ≡ ok owner
      → check_rows C E commitment_json j.market_slug
          (some j.definition)
          db.ledger
          before
          no_progress
        ≡ ok s
      → lookup j.prediction.user_id s.previous_by_user
        ≡ previous_commitment j.prediction.user_id j.prediction.market_id db
      → All (λ r. r.0.user_id ≢ j.prediction.user_id) after
      → Succeeds
          (λ r.
            commitments_are_valid C E commitment_json j.market_slug
              (some j.definition)
              r.0.ledger
              (before ++ (j.prediction, some r.1) ∷ after)
            ≡ commitments_are_valid C E commitment_json j.market_slug
                (some j.definition)
                db.ledger
                (before ++ after))
          (commit_prediction C E commitment_json j.prediction.id j.prediction.user_id
            j.prediction.created_at db)
  commit_prediction-commitments_are_valid law answers j owner db before after s intact new found
        known run newest others =
      let p = j.prediction in
      let previous = previous_commitment p.user_id p.market_id db in
      Succeeds-map (IsCommitted C E commitment_json j previous db) _
        (commit_prediction C E commitment_json p.id p.user_id p.created_at db)
        (λ r h.
          check_rows-insert C E commitment_json j.market_slug (some j.definition) db.ledger
            r.0.ledger before after p r.1 s h.keys run
            (ap
                (λ o.
                  check_commitment C E commitment_json p j.market_slug (some j.definition) o r.1
                    r.0.ledger)
                newest
              ∙ h.checked)
            others)
        (commit_prediction-IsCommitted C E commitment_json law answers j owner db intact new found
          known)
