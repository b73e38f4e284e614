-- ===== src/Prelude/Table.antt =====
-- A database table with a unique number as its key, as an association list.
use mathlib.Core.Path.{◌≡◌}
use mathlib.Core.Option
use mathlib.Core.Option.{Option, none, some}
use mathlib.Core.List.{List, [], ◌∷◌}
use native.Mathlib.Omega.{arith}
use Prim.Native.Nat.{ℕ}
use gotrendlabs.Prelude.Tests.{◌==◌, if◌then◌else◌}

abbrev pub Table {ℓ} : Type ℓ → Type ℓ
Table V = List (ℕ × V)

module _ {ℓ} {V : Type ℓ} where
  -- SELECT … WHERE key = k
  unfoldable pub lookup : ℕ → Table V → Option V
  lookup k [] = none
  lookup k ((j, v) ∷ t) = if j == k then some v else lookup k t

  -- UPDATE … WHERE key = k: nothing happens without the row.
  unfoldable pub update : ℕ → (V → V) → Table V → Table V
  update k f [] = []
  update k f ((j, v) ∷ t) = if j == k then (j, f v) ∷ t else (j, v) ∷ update k f t

  -- INSERT … ON CONFLICT DO NOTHING
  unfoldable pub insert_new : ℕ → V → Table V → Table V
  insert_new k v [] = (k, v) ∷ []
  insert_new k v ((j, w) ∷ t) = if j == k then (j, w) ∷ t else (j, w) ∷ insert_new k v t

  pub lookup-update :
      (k j : ℕ) (f : V → V) (t : Table V)
      → lookup j (update k f t) ≡ (if k == j then Option.map f (lookup j t) else lookup j t)
  unfolding lookup update
  lookup-update k j f [] = ground arith
  lookup-update k j f ((i, v) ∷ t) = ground (arith, lookup-update k j f t)

  abbrev pub or_else : Option V → V → V
  or_else none v = v
  or_else (some w) v = w

  pub lookup-insert_new :
      (k j : ℕ) (v : V) (t : Table V)
      → lookup j (insert_new k v t) ≡ (if k == j then some (or_else (lookup j t) v) else lookup j t)
  unfolding lookup insert_new
  lookup-insert_new k j v [] = ground arith
  lookup-insert_new k j v ((i, w) ∷ t) = ground (arith, lookup-insert_new k j v t)
