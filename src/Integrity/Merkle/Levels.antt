-- ===== src/Integrity/Merkle/Levels.antt =====
-- The levels of the tree: each is half as long as the one below it, rounded up, and the last is the
-- root alone.
use gotrendlabs.Prelude.{
  ℕ, zero, suc, ◌+◌, ◌-◌, ◌/◌, ◌%◌, ◌≤◌, ◌<◌, ◌≡◌, true, false, List, [], ◌∷◌, ◌==◌, ltb, arith,
  refl, inl, inr, Bool-cases, if_either, ap, ◌∙◌,
}
use gotrendlabs.Prelude.Lists.{length}
use gotrendlabs.Integrity.Merkle.{
  Hash, get, parents, levels, sibling, proof_of, root_of, climb, climb_all,
}

half : (i : ℕ) → suc (i / 2) ≡ suc (suc i) / 2
half i = omega arith

get_pred :
    (a b : ℕ) (rest : List ℕ) (i : ℕ)
    → (i % 2 == 0) ≡ false
    → get (a ∷ b ∷ rest) (suc (suc i) - 1) ≡ get rest (i - 1)
get_pred a b rest zero odd = cc
get_pred a b rest (suc i) odd = ap (get (a ∷ b ∷ rest)) (two_less i) ∙ ap (get rest) (one_less i)
  where
    two_less : (i : ℕ) → suc (suc (suc i)) - 1 ≡ suc (suc i)
    two_less i = omega arith

    one_less : (i : ℕ) → i ≡ suc i - 1
    one_less i = omega arith

-- Two nodes in front change no sibling.
sibling_shift :
    (a b : ℕ) (rest : List ℕ) (i : ℕ) → sibling (suc (suc i)) (a ∷ b ∷ rest) ≡ sibling i rest
unfolding sibling
sibling_shift a b rest i = elim (Bool-cases (i % 2 == 0)) [
  | inl even ↦ ground arith
  | inr odd ↦ ground (arith, get_pred a b rest i odd)
]

module _ (H : Hash) where
  pub length-parents : (l : List ℕ) → length (parents H l) ≡ (length l + 1) / 2
  unfolding parents
  length-parents [] = omega arith
  length-parents (a ∷ []) = omega arith
  length-parents (a ∷ b ∷ rest) = omega (arith, length-parents rest)

  -- A node and its sibling make the parent at half the index.
  pub climb-sibling :
      (l : List ℕ) (i : ℕ)
      → i < length l
      → climb H (get l i) (sibling i l) ≡ get (parents H l) (i / 2)
  unfolding climb sibling parents
  climb-sibling [] i h = absurd (omega arith)
  climb-sibling (a ∷ []) zero h = refl
  climb-sibling (a ∷ []) (suc i) h = absurd (omega arith)
  climb-sibling (a ∷ b ∷ rest) zero h = ground arith
  climb-sibling (a ∷ b ∷ rest) (suc zero) h = refl
  climb-sibling (a ∷ b ∷ rest) (suc (suc i)) h =
      ap (climb H (get rest i)) (sibling_shift a b rest i)
      ∙ climb-sibling rest i (omega arith)
      ∙ ap (get (H.node a b ∷ parents H rest)) (half i)

  pub levels-cons : (fuel : ℕ) (l : List ℕ) → (more : List (List ℕ)) × (levels H fuel l ≡ l ∷ more)
  unfolding levels
  levels-cons zero l = ([], refl)
  levels-cons (suc fuel) l =
      if_either (λ x. (more : List (List ℕ)) × (x ≡ l ∷ more)) (ltb 1 (length l))
        (levels H fuel (parents H l), refl) ([], refl)

  -- As many rounds as there are nodes end with the root alone.
  pub climb_all-proof_of :
      (fuel : ℕ) (l : List ℕ) (i : ℕ)
      → length l ≤ fuel
      → i < length l
      → climb_all H (get l i) (proof_of i (levels H fuel l)) ≡ root_of (levels H fuel l)
  unfolding climb_all proof_of root_of levels
  climb_all-proof_of zero l i m h = absurd (omega arith)
  climb_all-proof_of (suc fuel) l i m h = elim (Bool-cases (ltb 1 (length l))) [
    | inl more ↦
        let next = levels-cons fuel (parents H l) in
        let size = length-parents l in
        let ih = climb_all-proof_of fuel (parents H l) (i / 2) (ground arith) (ground arith) in
        rw (more, next.1)
          (ap (λ v. climb_all H v (proof_of (i / 2) (parents H l ∷ next.0))) (climb-sibling l i h)
            ∙ rw next.1 at ih)
    | inr last ↦ rw last (ap (get l) (ground arith))
  ]

  pub root_of-levels_more :
      (fuel : ℕ) (l : List ℕ)
      → ltb 1 (length l) ≡ true
      → root_of (levels H (suc fuel) l) ≡ root_of (levels H fuel (parents H l))
  unfolding root_of levels
  root_of-levels_more fuel l more =
      let next = levels-cons fuel (parents H l) in rw (more, next.1) refl

  pub root_of-levels_last :
      (fuel : ℕ) (l : List ℕ) → ltb 1 (length l) ≡ false → root_of (levels H (suc fuel) l) ≡ get l 0
  unfolding root_of levels
  root_of-levels_last fuel l last = rw last refl
