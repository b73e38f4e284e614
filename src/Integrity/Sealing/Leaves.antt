-- ===== src/Integrity/Sealing/Leaves.antt =====
-- The leaves that `seal_market` stores pass the check of the market's records.
use gotrendlabs.Prelude.{
  ℕ, suc, ◌+◌, ◌≡◌, true, Option, some, List, [], ◌∷◌, map, refl, ap, ◌∙◌, ==_refl, ==_iff, arith,
}
use gotrendlabs.Prelude.Lists.{length, get_elem?, All}
use gotrendlabs.Prelude.Table.{Table, lookup}
use gotrendlabs.Integrity.Merkle.{Hash, Sibling, build_merkle, verify_merkle_proof}
use gotrendlabs.Integrity.Merkle.Proofs.{verify_merkle_proof-build_merkle}
use gotrendlabs.Integrity.Ledger.Append.{◌and◌}
use gotrendlabs.Integrity.CommitmentStore.{Commitment}
use gotrendlabs.Integrity.Sealing.{
  or_empty, leaves_from, commitment_by_id, has_hash, leaves_match, seal_leaves, proofs_verify,
  merkle_valid,
}

abbrev sealed_hash : Commitment → ℕ
sealed_hash c = c.commitment_hash

module _ (market_id seal_id : ℕ) (proofs : List (List Sibling)) where
  length-leaves_from :
      (index : ℕ) (cs : List Commitment)
      → length (leaves_from market_id seal_id index cs proofs) ≡ length cs
  unfolding leaves_from
  length-leaves_from index [] = refl
  length-leaves_from index (c ∷ cs) = ap suc (length-leaves_from (suc index) cs)

  hashes-leaves_from :
      (index : ℕ) (cs : List Commitment)
      → map (λ l. l.leaf_hash) (leaves_from market_id seal_id index cs proofs) ≡ map sealed_hash cs
  unfolding leaves_from
  hashes-leaves_from index [] = refl
  hashes-leaves_from index (c ∷ cs) =
      ap (λ l. c.commitment_hash ∷ l) (hashes-leaves_from (suc index) cs)

  leaves_match-leaves_from :
      (by_id : Table Commitment) (index : ℕ) (cs : List Commitment)
      → All (λ c. lookup c.id by_id ≡ some c) cs
      → leaves_match market_id seal_id by_id index (leaves_from market_id seal_id index cs proofs)
        ≡ true
  unfolding leaves_from leaves_match
  leaves_match-leaves_from by_id index [] h = refl
  leaves_match-leaves_from by_id index (c ∷ cs) h =
      ==_refl index
      and ==_refl market_id
      and ==_refl seal_id
      and (ap
            (λ o.
              has_hash
                (record {
                  market_id = market_id;
                  seal_id = seal_id;
                  commitment_id = c.id;
                  leaf_index = index;
                  leaf_hash = c.commitment_hash;
                  proof = or_empty (get_elem? proofs index);
                })
                o)
            h.0
          ∙ ==_refl c.commitment_hash)
      and leaves_match-leaves_from by_id (suc index) cs h.1

  -- A proof for each leaf from an index on.
  abbrev HasProofs : Hash → ℕ → ℕ → List ℕ → Type 0
  HasProofs H root index hashes =
      (k leaf : ℕ)
      → get_elem? hashes k ≡ some leaf
      → (proof : List Sibling) × (get_elem? proofs (index + k) ≡ some proof)
        × (verify_merkle_proof H leaf proof root ≡ true)

  proofs_verify-leaves_from :
      (H : Hash) (root index : ℕ) (cs : List Commitment)
      → HasProofs H root index (map sealed_hash cs)
      → proofs_verify H root (leaves_from market_id seal_id index cs proofs) ≡ true
  unfolding leaves_from proofs_verify
  proofs_verify-leaves_from H root index [] h = refl
  proofs_verify-leaves_from H root index (c ∷ cs) h =
      let first = h 0 c.commitment_hash refl in
      (ap (λ o. verify_merkle_proof H c.commitment_hash (or_empty o) root)
          (ap (get_elem? proofs) (omega arith) ∙ first.1)
        ∙ first.2)
      and proofs_verify-leaves_from H root (suc index) cs (λ k leaf e.
        let later = h (suc k) leaf e in
        (later.0, ap (get_elem? proofs) (omega arith) ∙ later.1, later.2))

-- The leaves that are stored for the commitments of a market pass the check of the market's records
-- against the stored root, when the records have as many rows as there were commitments and each
-- commitment is found in them by its id.
pub seal_leaves-merkle_valid :
    (H : Hash) (market_id seal_id : ℕ) (commitments : List Commitment)
    (rows : List (Option Commitment))
    → length commitments ≡ length rows
    → All (λ c. lookup c.id (commitment_by_id rows []) ≡ some c) commitments
    → merkle_valid H rows market_id seal_id
        (seal_leaves H market_id seal_id commitments).0
        (seal_leaves H market_id seal_id commitments).1
      ≡ true
unfolding seal_leaves merkle_valid
seal_leaves-merkle_valid H market_id seal_id commitments rows size found =
    let tree = build_merkle H (map sealed_hash commitments) in
    (==_iff _ _).1 (length-leaves_from market_id seal_id tree.1 0 commitments ∙ size)
    and leaves_match-leaves_from market_id seal_id tree.1 (commitment_by_id rows []) 0 commitments
        found
    and (==_iff _ _).1 (
        ap (λ hashes. (build_merkle H hashes).0)
          (hashes-leaves_from market_id seal_id tree.1 0 commitments))
    and proofs_verify-leaves_from market_id seal_id tree.1 H tree.0 0 commitments (λ k leaf e.
      let p = verify_merkle_proof-build_merkle H (map sealed_hash commitments) k leaf e in
      (p.0, ap (get_elem? tree.1) (omega arith) ∙ p.1, p.2))
