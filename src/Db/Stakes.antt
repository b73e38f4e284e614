-- ===== src/Db/Stakes.antt =====
-- How the open stakes of a user change when one prediction is written.
use gotrendlabs.Prelude.{
  ℕ, suc, ◌+◌, ◌<◌, ◌≡◌, none, some, [], ◌∷◌, ◌++◌, arith, ◌==◌, if◌then◌else◌, refl,
}
use gotrendlabs.Prelude.Table.{Table, lookup, update, lookup-update}
use gotrendlabs.Db.Tables.{Prediction}
use gotrendlabs.Db.Backing.{IsKeyed}
use gotrendlabs.Db.Queries.{sum_rows}

-- A write to the row with the key k exchanges its term in a sum.
pub sum_rows-update :
    (f : Prediction → ℕ) (k : ℕ) (g : Prediction → Prediction) (p : Prediction)
    (t : Table Prediction)
    → lookup k t ≡ some p
    → sum_rows f (update k g t) + f p ≡ sum_rows f t + f (g p)
unfolding sum_rows lookup update
sum_rows-update f k g p [] h = cc
sum_rows-update f k g p ((j, q) ∷ t) h = ground (arith, sum_rows-update f k g p t)

pub sum_rows-append :
    (f : Prediction → ℕ) (s t : Table Prediction)
    → sum_rows f (s ++ t) ≡ sum_rows f s + sum_rows f t
unfolding sum_rows
sum_rows-append f [] t = omega arith
sum_rows-append f ((j, q) ∷ s) t = omega (arith, sum_rows-append f s t)

-- An id above all the others is not taken.
pub lookup_fresh :
    (last k : ℕ) (t : Table Prediction) → IsKeyed last t → last < k → lookup k t ≡ none
unfolding lookup
lookup_fresh last k [] h l = refl
lookup_fresh last k ((j, q) ∷ t) h l = ground (arith, lookup_fresh last k t h.3 l)

pub lookup-append_one :
    (j k : ℕ) (p : Prediction) (t : Table Prediction)
    → lookup j t ≡ none
    → lookup j (t ++ (k, p) ∷ []) ≡ (if k == j then some p else none)
unfolding lookup
lookup-append_one j k p [] h = refl
lookup-append_one j k p ((i, q) ∷ t) h = ground (arith, lookup-append_one j k p t)

-- The next id may be appended.
pub IsKeyed-append :
    (last : ℕ) (p : Prediction) (t : Table Prediction)
    → IsKeyed last t
    → p.id ≡ suc last
    → IsKeyed p.id (t ++ (p.id, p) ∷ [])
unfolding lookup
IsKeyed-append last p [] h e = (refl, omega arith, refl, tt)
IsKeyed-append last p ((k, q) ∷ t) h e = (
  h.0,
  omega arith,
  ground (arith, lookup-append_one k p.id p t h.2),
  IsKeyed-append last p t h.3 e,
)

pub lookup-update-none :
    (j k : ℕ) (f : Prediction → Prediction) (t : Table Prediction)
    → lookup j t ≡ none
    → lookup j (update k f t) ≡ none
lookup-update-none j k f t h = rw lookup-update (ground arith)

-- A write that keeps the id keeps the keys.
pub IsKeyed-update :
    (last k : ℕ) (f : Prediction → Prediction) (t : Table Prediction)
    → ((p : Prediction) → (f p).id ≡ p.id)
    → IsKeyed last t
    → IsKeyed last (update k f t)
unfolding update
IsKeyed-update last k f [] same h = tt
IsKeyed-update last k f ((j, q) ∷ t) same h =
    ground (arith, same q, IsKeyed-update last k f t same h.3, lookup-update-none j k f t)
