-- ===== src/Integrity/Merkle.antt =====
-- `build_merkle` and `verify_merkle_proof`. SHA-256 is a parameter: what the code hashes is the
-- concatenation of two digests, or nothing.
pub mod Levels
pub mod Proofs
pub mod Binding
use gotrendlabs.Prelude.{
  ℕ, zero, suc, ◌+◌, ◌-◌, ◌/◌, ◌%◌, Bool, Option, none, some, List, [], ◌∷◌, ◌==◌, ltb,
  if◌then◌else◌, map,
}
use gotrendlabs.Prelude.Lists.{length, get_elem?}

pub record Hash : Type 0 where
  -- `sha256_hex(bytes.fromhex(a) + bytes.fromhex(b))`
  pub node : ℕ → ℕ → ℕ
  -- `sha256_hex(b"")`
  pub empty : ℕ

pub data Side : Type 0 where
  left right : Side

-- One entry of a proof.
pub record Sibling : Type 0 where
  pub position : Side
  pub hash : ℕ

-- An index out of range does not occur.
abbrev pub get : List ℕ → ℕ → ℕ
get [] i = 0
get (x ∷ xs) zero = x
get (x ∷ xs) (suc i) = get xs i

module _ (H : Hash) where
  -- The next level: neighbours are hashed together, a last one without neighbour with itself.
  unfoldable pub parents : List ℕ → List ℕ
  parents [] = []
  parents (a ∷ []) = H.node a a ∷ []
  parents (a ∷ b ∷ rest) = H.node a b ∷ parents rest

  -- `levels`, with the rounds of the loop as fuel.
  unfoldable pub levels : ℕ → List ℕ → List (List ℕ)
  unfolding parents
  levels zero level = level ∷ []
  levels (suc fuel) level =
      let rest = levels fuel (parents level) in
      if ltb 1 (length level) then level ∷ rest else level ∷ []

-- The sibling of the node at an index, itself when it has none.
unfoldable pub sibling : ℕ → List ℕ → Sibling
sibling index level =
    if index % 2 == 0
    then record {
      position = right;
      hash = if ltb (index + 1) (length level) then get level (index + 1) else get level index;
    }
    else record { position = left; hash = get level (index - 1) }

-- The loop over `levels[:-1]`.
unfoldable pub proof_of : ℕ → List (List ℕ) → List Sibling
unfolding sibling
proof_of index [] = []
proof_of index (last ∷ []) = []
proof_of index (level ∷ next ∷ rest) = sibling index level ∷ proof_of (index / 2) (next ∷ rest)

-- `levels[-1][0]`
unfoldable pub root_of : List (List ℕ) → ℕ
root_of [] = 0
root_of (last ∷ []) = get last 0
root_of (level ∷ next ∷ rest) = root_of (next ∷ rest)

-- The loop over the leaves: the proofs of the indices from `index` on.
unfoldable pub proofs_from : ℕ → List ℕ → List (List ℕ) → List (List Sibling)
unfolding proof_of
proofs_from index [] all_levels = []
proofs_from index (leaf ∷ leaves) all_levels =
    proof_of index all_levels ∷ proofs_from (suc index) leaves all_levels

module _ (H : Hash) where
  -- `build_merkle`; as many rounds as there are leaves are enough.
  unfoldable pub build_merkle : List ℕ → ℕ × List (List Sibling)
  unfolding levels root_of proofs_from
  build_merkle [] = (H.empty, [])
  build_merkle (leaf ∷ leaves) =
      let all_levels = levels H (length (leaf ∷ leaves)) (leaf ∷ leaves) in
      (root_of all_levels, proofs_from 0 (leaf ∷ leaves) all_levels)

  abbrev pub climb_at : Side → ℕ → ℕ → ℕ
  climb_at left hash value = H.node hash value
  climb_at right hash value = H.node value hash

  -- One round of the loop of `verify_merkle_proof`.
  unfoldable pub climb : ℕ → Sibling → ℕ
  climb value item = climb_at item.position item.hash value

  unfoldable pub climb_all : ℕ → List Sibling → ℕ
  unfolding climb
  climb_all value [] = value
  climb_all value (item ∷ items) = climb_all (climb value item) items

  -- `verify_merkle_proof`
  unfoldable pub verify_merkle_proof : ℕ → List Sibling → ℕ → Bool
  unfolding climb_all
  verify_merkle_proof leaf_hash proof root = climb_all leaf_hash proof == root
