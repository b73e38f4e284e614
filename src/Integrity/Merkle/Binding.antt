-- ===== src/Integrity/Merkle/Binding.antt =====
-- A root commits to its leaves, as long as nobody has found a collision of the hash.
use gotrendlabs.Prelude.{
  ℕ, zero, suc, ◌≤◌, ◌≡◌, ◌⊎◌, inl, inr, true, false, List, [], ◌∷◌, ◌==◌, ◌&&◌, ltb, arith, refl,
  sym, ap, ◌∙◌, map, ==_iff, Bool-cases,
}
use gotrendlabs.Prelude.Lists.{length}
use gotrendlabs.Integrity.Merkle.{
  Hash, Side, left, right, Sibling, get, parents, levels, root_of, climb_at, build_merkle, climb,
  climb_all, verify_merkle_proof,
}
use gotrendlabs.Integrity.Merkle.Levels.{length-parents, root_of-levels_more, root_of-levels_last}

-- Two different pairs of digests with one hash.
pub record Collision (H : Hash) : Type 0 where
  pub a : ℕ
  pub b : ℕ
  pub c : ℕ
  pub d : ℕ
  pub same : H.node a b ≡ H.node c d
  pub differ : (a == c) && (b == d) ≡ false

-- A list of at most one number is known by its length and its first one.
short : (l k : List ℕ) → ltb 1 (length l) ≡ false → length l ≡ length k → get l 0 ≡ get k 0 → l ≡ k
short [] [] s n e = refl
short [] (c ∷ k) s n e = absurd (omega arith)
short (a ∷ []) [] s n e = absurd (omega arith)
short (a ∷ []) (c ∷ []) s n e = ap (λ x. x ∷ []) e
short (a ∷ []) (c ∷ d ∷ k) s n e = absurd (omega arith)
short (a ∷ b ∷ l) k s n e = ground arith

module _ (H : Hash) where
  -- Equal hashes are of equal pairs, or collide.
  node_cases : (a b c d : ℕ) → H.node a b ≡ H.node c d → ((a ≡ c) × (b ≡ d)) ⊎ Collision H
  node_cases a b c d e = elim (Bool-cases ((a == c) && (b == d))) [
    | inl equal ↦ inl (ground arith)
    | inr differ ↦ inr (record { a = a; b = b; c = c; d = d; same = e; differ = differ })
  ]

  climb_at_cases :
      (x y : Side) (g h v w : ℕ)
      → x ≡ y
      → climb_at H x g v ≡ climb_at H y h w
      → (v ≡ w) ⊎ Collision H
  climb_at_cases left left g h v w p e = elim (node_cases g v h w e) [
    | inl same ↦ inl same.1
    | inr found ↦ inr found
  ]
  climb_at_cases right right g h v w p e = elim (node_cases v g w h e) [
    | inl same ↦ inl same.0
    | inr found ↦ inr found
  ]
  climb_at_cases left right g h v w p e = cc
  climb_at_cases right left g h v w p e = cc

  climb_cases :
      (v w : ℕ) (s t : Sibling)
      → s.position ≡ t.position
      → climb H v s ≡ climb H w t
      → (v ≡ w) ⊎ Collision H
  unfolding climb
  climb_cases v w s t p e = climb_at_cases s.position t.position s.hash t.hash v w p e

  climb_all_cases :
      (p q : List Sibling) (v w : ℕ)
      → map (λ s. s.position) p ≡ map (λ s. s.position) q
      → climb_all H v p ≡ climb_all H w q
      → (v ≡ w) ⊎ Collision H
  unfolding climb_all
  climb_all_cases [] [] v w e h = inl h
  climb_all_cases [] (t ∷ q) v w e h = cc
  climb_all_cases (s ∷ p) [] v w e h = cc
  climb_all_cases (s ∷ p) (t ∷ q) v w e h =
      elim (climb_all_cases p q (climb H v s) (climb H w t) (cc) h) [
        | inl same ↦ climb_cases v w s t (cc) same
        | inr found ↦ inr found
      ]

  parents_cases :
      (l k : List ℕ) → length l ≡ length k → parents H l ≡ parents H k → (l ≡ k) ⊎ Collision H
  unfolding parents
  parents_cases [] [] n e = inl refl
  parents_cases (a ∷ []) (c ∷ []) n e = elim (node_cases a a c c (cc)) [
    | inl same ↦ inl (ap (λ x. x ∷ []) same.0)
    | inr found ↦ inr found
  ]
  parents_cases (a ∷ b ∷ l) (c ∷ d ∷ k) n e = elim (parents_cases l k (omega arith) (cc)) [
    | inr found ↦ inr found
    | inl rest ↦ elim (node_cases a b c d (cc)) [
      | inl same ↦ inl (ground arith)
      | inr found ↦ inr found
    ]
  ]
  parents_cases [] (c ∷ k) n e = absurd (omega arith)
  parents_cases (a ∷ l) [] n e = absurd (omega arith)
  parents_cases (a ∷ []) (c ∷ d ∷ k) n e = absurd (omega arith)
  parents_cases (a ∷ b ∷ l) (c ∷ []) n e = absurd (omega arith)

  root_cases :
      (fuel : ℕ) (l k : List ℕ)
      → length l ≤ fuel
      → length l ≡ length k
      → root_of (levels H fuel l) ≡ root_of (levels H fuel k)
      → (l ≡ k) ⊎ Collision H
  unfolding levels root_of
  root_cases zero [] [] m n e = inl refl
  root_cases zero [] (c ∷ k) m n e = absurd (omega arith)
  root_cases zero (a ∷ l) k m n e = absurd (omega arith)
  root_cases (suc fuel) l k m n e = elim (Bool-cases (ltb 1 (length l))) [
    | inl more ↦
        let size = length-parents H l in
        let size' = length-parents H k in
        elim (root_cases fuel (parents H l) (parents H k) (ground arith)
          (omega (arith, size, size'))
          (sym (root_of-levels_more H fuel l more)
            ∙ e
            ∙ root_of-levels_more H fuel k (ap (ltb 1) (sym n) ∙ more))) [
              | inl same ↦ parents_cases l k n same
              | inr found ↦ inr found
            ]
    | inr last ↦ inl (
        short l k last n (
          sym (root_of-levels_last H fuel l last)
          ∙ e
          ∙ root_of-levels_last H fuel k (ap (ltb 1) (sym n) ∙ last)))
  ]

  -- Trees over equally many leaves with one root are over the same leaves, or the hash has a
  -- collision.
  pub build_merkle-binds :
      (l k : List ℕ)
      → length l ≡ length k
      → (build_merkle H l).0 ≡ (build_merkle H k).0
      → (l ≡ k) ⊎ Collision H
  unfolding build_merkle
  build_merkle-binds [] [] n e = inl refl
  build_merkle-binds [] (c ∷ k) n e = absurd (omega arith)
  build_merkle-binds (a ∷ l) [] n e = absurd (omega arith)
  build_merkle-binds (a ∷ l) (c ∷ k) n e =
      root_cases (length (a ∷ l)) (a ∷ l) (c ∷ k) (omega arith) n
        (e ∙ ap (λ f. root_of (levels H f (c ∷ k))) (sym n))

  -- Two leaves that are proved against one root, from the same index of trees of one height, are
  -- the same leaf, or the hash has a collision.
  pub verify_merkle_proof-binds :
      (leaf other root : ℕ) (p q : List Sibling)
      → map (λ s. s.position) p ≡ map (λ s. s.position) q
      → verify_merkle_proof H leaf p root ≡ true
      → verify_merkle_proof H other q root ≡ true
      → (leaf ≡ other) ⊎ Collision H
  unfolding verify_merkle_proof
  verify_merkle_proof-binds leaf other root p q same first second =
      climb_all_cases p q leaf other same ((==_iff _ _).0 first ∙ sym ((==_iff _ _).0 second))
