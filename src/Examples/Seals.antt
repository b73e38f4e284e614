-- ===== src/Examples/Seals.antt =====
-- The leaves of a seal over three commitments, checked in another order.
use gotrendlabs.Prelude.{ℕ, ◌+◌, ◌*◌, ◌≡◌, true, Option, none, some, List, [], ◌∷◌, refl}
use gotrendlabs.Prelude.Table.{lookup}
use gotrendlabs.Integrity.Merkle.{Hash}
use gotrendlabs.Integrity.CommitmentStore.{Commitment}
use gotrendlabs.Integrity.Sealing.{commitment_by_id, seal_leaves, merkle_valid}
use gotrendlabs.Integrity.Sealing.Leaves.{seal_leaves-merkle_valid}

abbrev toy_hash : Hash
toy_hash = record { node = λ a b. a * 3 + b * 5 + 1; empty = 0 }

abbrev commitment : ℕ → ℕ → Commitment
commitment id hash = record {
  id = id;
  prediction_id = id;
  market_id = 3;
  definition_id = 4;
  previous_commitment_id = none;
  protocol_version = 1;
  canonical_payload = [];
  payload_json = [];
  commitment_hash = hash;
  signature = hash;
  algorithm = 2;
  key_id = 9;
  key_fingerprint = 8;
  signed_at = 10;
}

abbrev sealed : List Commitment
sealed = commitment 1 11 ∷ commitment 2 12 ∷ commitment 3 13 ∷ []

abbrev records : List (Option Commitment)
records = some (commitment 2 12) ∷ some (commitment 1 11) ∷ some (commitment 3 13) ∷ []

seal_leaves-merkle_valid_example :
    merkle_valid toy_hash records 3 6
      (seal_leaves toy_hash 3 6 sealed).0
      (seal_leaves toy_hash 3 6 sealed).1
    ≡ true
unfolding commitment_by_id lookup
seal_leaves-merkle_valid_example =
    seal_leaves-merkle_valid toy_hash 3 6 sealed records refl (refl, (refl, (refl, tt)))
