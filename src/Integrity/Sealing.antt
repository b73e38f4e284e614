-- ===== src/Integrity/Sealing.antt =====
-- The Merkle leaves of a seal: what `seal_market` stores, and how `verify_market_integrity_records`
-- checks it.
pub mod Leaves
use gotrendlabs.Prelude.{
  ℕ, suc, Bool, true, false, ◌&&◌, Option, none, some, List, [], ◌∷◌, ◌==◌, map,
}
use gotrendlabs.Prelude.Lists.{length, get_elem?}
use gotrendlabs.Prelude.Table.{Table, lookup}
use gotrendlabs.Integrity.Merkle.{Hash, Sibling, build_merkle, verify_merkle_proof}
use gotrendlabs.Integrity.CommitmentStore.{Commitment}

-- A row of market_merkle_leaves.
pub record Leaf : Type 0 where
  pub market_id : ℕ
  pub seal_id : ℕ
  pub commitment_id : ℕ
  pub leaf_index : ℕ
  pub leaf_hash : ℕ
  pub proof : List Sibling

-- `proofs[index]`; an index out of range does not occur.
abbrev pub or_empty : Option (List Sibling) → List Sibling
or_empty none = []
or_empty (some proof) = proof

-- The loop over the commitments, from an index on.
unfoldable pub leaves_from : ℕ → ℕ → ℕ → List Commitment → List (List Sibling) → List Leaf
leaves_from market_id seal_id index [] proofs = []
leaves_from market_id seal_id index (c ∷ cs) proofs =
    record {
      market_id = market_id;
      seal_id = seal_id;
      commitment_id = c.id;
      leaf_index = index;
      leaf_hash = c.commitment_hash;
      proof = or_empty (get_elem? proofs index);
    }
    ∷ leaves_from market_id seal_id (suc index) cs proofs

-- `commitment_by_id`: a later row replaces an earlier one; a prediction without a commitment has none.
unfoldable pub commitment_by_id : List (Option Commitment) → Table Commitment → Table Commitment
commitment_by_id [] by_id = by_id
commitment_by_id (none ∷ rows) by_id = commitment_by_id rows by_id
commitment_by_id (some c ∷ rows) by_id = commitment_by_id rows ((c.id, c) ∷ by_id)

abbrev pub has_hash : Leaf → Option Commitment → Bool
has_hash leaf none = false
has_hash leaf (some c) = leaf.leaf_hash == c.commitment_hash

-- The `all` of `leaves_match`, from an index on.
unfoldable pub leaves_match : ℕ → ℕ → Table Commitment → ℕ → List Leaf → Bool
leaves_match market_id seal_id by_id index [] = true
leaves_match market_id seal_id by_id index (leaf ∷ leaves) =
    (leaf.leaf_index == index)
    && (leaf.market_id == market_id)
    && (leaf.seal_id == seal_id)
    && has_hash leaf (lookup leaf.commitment_id by_id)
    && leaves_match market_id seal_id by_id (suc index) leaves

module _ (H : Hash) where
  -- `predictions_root` and the leaves of a seal.
  unfoldable pub seal_leaves : ℕ → ℕ → List Commitment → ℕ × List Leaf
  seal_leaves market_id seal_id commitments =
      let tree = build_merkle H (map (λ c. c.commitment_hash) commitments) in
      (tree.0, leaves_from market_id seal_id 0 commitments tree.1)

  unfoldable pub proofs_verify : ℕ → List Leaf → Bool
  proofs_verify root [] = true
  proofs_verify root (leaf ∷ leaves) =
      verify_merkle_proof H leaf.leaf_hash leaf.proof root && proofs_verify root leaves

  -- `merkle_valid`, for the rows of the market, its seal and the root stored with it.
  unfoldable pub merkle_valid : List (Option Commitment) → ℕ → ℕ → ℕ → List Leaf → Bool
  unfolding leaves_match commitment_by_id proofs_verify
  merkle_valid rows market_id seal_id root leaves =
      (length leaves == length rows)
      && leaves_match market_id seal_id (commitment_by_id rows []) 0 leaves
      && ((build_merkle H (map (λ l. l.leaf_hash) leaves)).0 == root)
      && proofs_verify root leaves
