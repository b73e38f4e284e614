-- ===== src/Integrity/Merkle/Proofs.antt =====
-- The proofs that `build_merkle` returns pass `verify_merkle_proof`.
use gotrendlabs.Prelude.{
  ℕ, zero, suc, ◌+◌, ◌<◌, ◌≡◌, true, some, List, [], ◌∷◌, arith, sym, ap, ◌∙◌, ==_iff,
}
use gotrendlabs.Prelude.Lists.{length, get_elem?}
use gotrendlabs.Integrity.Merkle.{
  Hash, Sibling, get, levels, proof_of, proofs_from, build_merkle, climb_all, verify_merkle_proof,
}
use gotrendlabs.Integrity.Merkle.Levels.{climb_all-proof_of}

get-eq-some :
    (l : List ℕ) (i : ℕ) {leaf : ℕ} → get_elem? l i ≡ some leaf → (i < length l) × (get l i ≡ leaf)
get-eq-some [] i e = cc
get-eq-some (x ∷ xs) zero e = (omega arith, cc)
get-eq-some (x ∷ xs) (suc i) e = let rest = get-eq-some xs i e in (omega (arith, rest.0), rest.1)

get_elem?-proofs_from :
    (l : List ℕ) (i k : ℕ) (all_levels : List (List ℕ))
    → i < length l
    → get_elem? (proofs_from k l all_levels) i ≡ some (proof_of (k + i) all_levels)
unfolding proofs_from
get_elem?-proofs_from [] i k all_levels h = absurd (omega arith)
get_elem?-proofs_from (x ∷ xs) zero k all_levels h =
    ap (λ n. some (proof_of n all_levels)) (omega arith)
get_elem?-proofs_from (x ∷ xs) (suc i) k all_levels h =
    get_elem?-proofs_from xs i (suc k) all_levels (omega arith)
    ∙ ap (λ n. some (proof_of n all_levels)) (omega arith)

module _ (H : Hash) where
  -- The tree has one proof for each leaf, and the proof of a leaf leads from it to the root.
  pub verify_merkle_proof-build_merkle :
      (leaves : List ℕ) (i leaf : ℕ)
      → get_elem? leaves i ≡ some leaf
      → (proof : List Sibling) × (get_elem? (build_merkle H leaves).1 i ≡ some proof)
        × (verify_merkle_proof H leaf proof (build_merkle H leaves).0 ≡ true)
  unfolding build_merkle verify_merkle_proof
  verify_merkle_proof-build_merkle [] i leaf e = cc
  verify_merkle_proof-build_merkle (x ∷ xs) i leaf e =
      let at = get-eq-some (x ∷ xs) i e in
      let all_levels = levels H (length (x ∷ xs)) (x ∷ xs) in
      let up = climb_all-proof_of H (length (x ∷ xs)) (x ∷ xs) i (omega arith) at.0 in
      (
        proof_of i all_levels,
        get_elem?-proofs_from (x ∷ xs) i 0 all_levels at.0
            ∙ ap (λ n. some (proof_of n all_levels)) (omega arith),
        (==_iff _ _).1 (ap (λ v. climb_all H v (proof_of i all_levels)) (sym at.1) ∙ up),
      )
