-- ===== src/Position/Stakes.antt =====
-- The stakes of the active positions, and what superseding them does to the open stakes.
use gotrendlabs.Prelude.{
  ℕ, ◌+◌, ◌<◌, ◌≡◌, none, List, [], ◌∷◌, ◌++◌, ◌==◌, ◌&&◌, arith, refl, if◌then◌else◌,
}
use gotrendlabs.Prelude.Lists.{select}
use gotrendlabs.Prelude.Table.{Table, lookup}
use gotrendlabs.Db.{Db, Prediction, rows, is_of, is_open, open_stakes, sum_rows}
use gotrendlabs.Db.Backing.{IsKeyed}
use gotrendlabs.Position.Queries.{
  insert_by_created, order_by_created, active_positions, total_stake,
}
use gotrendlabs.Position.Apply.{supersede}

abbrev pub active_rows : ℕ → ℕ → Table Prediction → List Prediction
active_rows u m t = select (λ p. is_of u m p && is_open p.status) (rows t)

total_stake-insert_by_created :
    (p : Prediction) (ps : List Prediction)
    → total_stake (insert_by_created p ps) ≡ p.stake_amount + total_stake ps
unfolding insert_by_created
total_stake-insert_by_created p [] = refl
total_stake-insert_by_created p (q ∷ qs) = ground (arith, total_stake-insert_by_created p qs)

total_stake-order_by_created :
    (ps : List Prediction) → total_stake (order_by_created ps) ≡ total_stake ps
unfolding order_by_created
total_stake-order_by_created [] = refl
total_stake-order_by_created (p ∷ ps) =
    omega (
      arith,
      total_stake-insert_by_created p (order_by_created ps),
      total_stake-order_by_created ps,
    )

-- Ordering the active positions by their date loses no stake.
pub total_stake-active_positions :
    (u m : ℕ) (db : Db)
    → total_stake (active_positions u m db) ≡ total_stake (active_rows u m db.predictions)
unfolding active_positions
total_stake-active_positions u m db = total_stake-order_by_created _

module _ (u m n now : ℕ) where
  -- Superseding takes exactly the active stakes of the one user in the one market.
  pub open_stakes-supersede :
      (j last : ℕ) (t : Table Prediction)
      → IsKeyed last t
      → last < n
      → open_stakes j (supersede u m n now t)
          + (if u == j then total_stake (active_rows u m t) else 0)
        ≡ open_stakes j t
  unfolding supersede sum_rows
  open_stakes-supersede j last [] k l = ground arith
  open_stakes-supersede j last ((i, p) ∷ t) k l =
      ground (arith, open_stakes-supersede j last t k.3 l)

  pub lookup-supersede-none :
      (j : ℕ) (t : Table Prediction) → lookup j t ≡ none → lookup j (supersede u m n now t) ≡ none
  unfolding supersede lookup
  lookup-supersede-none j [] h = refl
  lookup-supersede-none j ((i, p) ∷ t) h = ground (arith, lookup-supersede-none j t)

  pub IsKeyed-supersede :
      (last : ℕ) (t : Table Prediction) → IsKeyed last t → IsKeyed last (supersede u m n now t)
  unfolding supersede
  IsKeyed-supersede last [] h = tt
  IsKeyed-supersede last ((i, p) ∷ t) h =
      ground (arith, IsKeyed-supersede last t h.3, lookup-supersede-none i t)

  -- The new position itself is not superseded.
  pub supersede-append_new :
      (p : Prediction) (t : Table Prediction)
      → p.id ≡ n
      → supersede u m n now (t ++ (p.id, p) ∷ []) ≡ supersede u m n now t ++ (p.id, p) ∷ []
  unfolding supersede
  supersede-append_new p [] e = ground arith
  supersede-append_new p ((i, q) ∷ t) e = rw (supersede-append_new p t e) refl
