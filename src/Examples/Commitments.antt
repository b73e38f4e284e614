-- ===== src/Examples/Commitments.antt =====
-- Two predictions of one user, committed one after the other to the toy ledger.
use gotrendlabs.Prelude.{ℕ, ◌+◌, ◌*◌, false, Option, none, [], ◌∷◌, Result, ok, err, refl, Succeeds}
use gotrendlabs.Prelude.Table.{lookup, insert_new}
use gotrendlabs.Db.{Prediction, reinforcement}
use gotrendlabs.Integrity.Store.{Bytes}
use gotrendlabs.Integrity.Ledger.{remember_public_key, append_ledger_event}
use gotrendlabs.Integrity.Ledger.Append.{IsIntact}
use gotrendlabs.Integrity.CommitmentStore.{
  Value, null, number, text, prediction, action, CommitmentPayload, Commitment, CommitmentDb,
  Environment,
}
use gotrendlabs.Integrity.Commitments.{
  commitment_row, Joined, commit_prediction, previous_commitment, user_commitment, commitment_of,
  signed_prediction,
}
use gotrendlabs.Integrity.Commitments.Checking.{
  Progress, no_progress, check_rows, check_commitment, signed_record_core_is_valid,
  columns_are_valid,
}
use gotrendlabs.Integrity.Commitments.Loop.{Row, commitments_are_valid}
use gotrendlabs.Integrity.Commitments.Verdict.{commit_prediction-commitments_are_valid}
use gotrendlabs.Integrity.Store.{public_key_der_for}
use gotrendlabs.Integrity.Commitments.{commitment_payload}
use gotrendlabs.Prelude.{◌++◌, List, some, ◌≡◌}
use gotrendlabs.Integrity.Commitments.Agreement.{
  IsCommitted, Answers, commit_prediction-IsCommitted,
}
use gotrendlabs.Examples.{no_prediction}
use gotrendlabs.Examples.Toys.{toy, toy-IsSigner}
use gotrendlabs.Examples.Ledgers.{two_events, two_events-IsIntact}

abbrev weight : Value → ℕ
weight null = 0
weight (number n) = n
weight (text n) = n
weight (prediction n) = n
weight (action a) = 1

abbrev toy_json : CommitmentPayload → Bytes
toy_json [] = []
toy_json ((field, value) ∷ rest) = weight value ∷ toy_json rest

abbrev development : Environment
development = record {
  secret = none;
  is_production = false;
  development_secret = 5;
  hmac = λ secret user. secret * 7 + user;
  str = λ n. n;
  reference = λ n. n;
}

abbrev first : Prediction
first = record no_prediction {
  id = 1;
  user_id = 7;
  market_id = 3;
  market_option_id = 5;
  position_sequence = 1;
  stake_amount = 100;
  created_at = 10;
}

abbrev second : Prediction
second = record first {
  id = 2;
  action_type = reinforcement;
  position_sequence = 2;
  stake_amount = 50;
  created_at = 20;
}

abbrev joined : Prediction → Joined
joined p = record {
  prediction = p;
  market_slug = 33;
  definition = record { id = 4; definition_version = 1 };
}

abbrev uncommitted : CommitmentDb
uncommitted = record {
  ledger = two_events;
  commitments = [];
  predictions = (1, first) ∷ (2, second) ∷ [];
  slugs = (3, 33) ∷ [];
  definitions = (3, record { id = 4; definition_version = 1 }) ∷ [];
}

abbrev committed : CommitmentDb → Result (CommitmentDb × Commitment) → CommitmentDb
committed db (ok r) = r.0
committed db (err e) = db

abbrev once : CommitmentDb
once = committed uncommitted (commit_prediction toy development toy_json 1 7 10 uncommitted)

toy-Answers : Answers toy development toy_json
toy-Answers digest = (digest, refl)

committed-IsIntact :
    (j : Joined) (previous : Option Commitment) (db : CommitmentDb)
    (r : Result (CommitmentDb × Commitment))
    → Succeeds (IsCommitted toy development toy_json j previous db) r
    → IsIntact toy (committed db r).ledger
committed-IsIntact j previous db (ok r) h = h.intact
committed-IsIntact j previous db (err e) h = elim h [ ]

once-IsIntact : IsIntact toy once.ledger
unfolding commitment_of signed_prediction user_commitment lookup
once-IsIntact =
    committed-IsIntact (joined first) (previous_commitment 7 3 uncommitted) uncommitted
      (commit_prediction toy development toy_json 1 7 10 uncommitted)
      (commit_prediction-IsCommitted toy development toy_json toy-IsSigner toy-Answers
        (joined first) 42 uncommitted two_events-IsIntact refl refl refl)

commit_prediction-IsCommitted_example :
    Succeeds
      (IsCommitted toy development toy_json (joined second) (previous_commitment 7 3 once) once)
      (commit_prediction toy development toy_json 2 7 20 once)
unfolding commit_prediction commitment_of signed_prediction user_commitment lookup
    remember_public_key insert_new append_ledger_event commitment_row
commit_prediction-IsCommitted_example =
    commit_prediction-IsCommitted toy development toy_json toy-IsSigner toy-Answers (joined second)
      42 once once-IsIntact refl refl refl

abbrev earlier : List Row
earlier = (first, commitment_of 1 once.commitments) ∷ []

abbrev progress_of : Result Progress → Progress
progress_of (ok s) = s
progress_of (err e) = no_progress

-- What the loop keeps after the first prediction.
abbrev after_first : Progress
after_first = progress_of (
    check_rows toy development toy_json 33 (some (joined first).definition) once.ledger earlier
      no_progress)

commit_prediction-commitments_are_valid_example :
    Succeeds
      (λ r.
        commitments_are_valid toy development toy_json 33
          (some (joined second).definition)
          r.0.ledger
          (earlier ++ (second, some r.1) ∷ [])
        ≡ commitments_are_valid toy development toy_json 33
            (some (joined second).definition)
            once.ledger
            (earlier ++ []))
      (commit_prediction toy development toy_json 2 7 20 once)
unfolding commit_prediction commitment_of signed_prediction user_commitment lookup
    remember_public_key insert_new append_ledger_event commitment_row check_rows check_commitment
    public_key_der_for signed_record_core_is_valid commitment_payload previous_commitment
    columns_are_valid no_progress
commit_prediction-commitments_are_valid_example =
    commit_prediction-commitments_are_valid toy development toy_json toy-IsSigner toy-Answers
      (joined second) 42 once earlier [] after_first once-IsIntact refl refl refl refl refl tt
