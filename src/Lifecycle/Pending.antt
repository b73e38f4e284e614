-- ===== src/Lifecycle/Pending.antt =====
-- The rows that a loop still has to visit: the loops read them once, before the first write.
use gotrendlabs.Prelude.{
  ℕ, ◌≡◌, Bool, true, false, none, some, List, [], ◌∷◌, arith, ◌==◌, ◌&&◌, inl, inr, Bool-cases,
  refl, sym, ◌∙◌,
}
use gotrendlabs.Prelude.Int.{pos, ◌+ℤ◌, int_laws, parts_of_eq, eq_of_parts}
use gotrendlabs.Prelude.Lists.{select, length, All}
use gotrendlabs.Prelude.Table.{Table, lookup, update, lookup-update}
use gotrendlabs.Wallet.{Wallet}
use gotrendlabs.Wallet.Consistency.{IsConsistent}
use gotrendlabs.Wallet.Effects.{locked_of}
use gotrendlabs.Db.{Db, Prediction, rows, is_open, open_count, open_stake_of, sum_rows}
use gotrendlabs.Db.Stakes.{sum_rows-update, IsKeyed-update}
use gotrendlabs.Db.Backing.{IsKeyed, IsBacked}

abbrev pub AreOther : ℕ → List Prediction → Type 0
AreOther k ps = All (λ r. (k == r.id) ≡ false) ps

-- Every listed row is in the table as listed, passes the test, and is listed once.
abbrev pub IsPending : (Prediction → Bool) → Table Prediction → List Prediction → Type 0
IsPending test t [] = Unit
IsPending test t (p ∷ ps) =
    (lookup p.id t ≡ some p) × (test p ≡ true) × AreOther p.id ps × IsPending test t ps

module _ (test : Prediction → Bool) where
  AreOther-of_none :
      (k : ℕ) (t : Table Prediction) (ps : List Prediction)
      → lookup k t ≡ none
      → IsPending test t ps
      → AreOther k ps
  AreOther-of_none k t [] e h = tt
  AreOther-of_none k t (p ∷ ps) e h = (ground arith, AreOther-of_none k t ps e h.3)

  IsPending-cons :
      (k : ℕ) (v : Prediction) (t : Table Prediction) (ps : List Prediction)
      → lookup k t ≡ none
      → IsPending test t ps
      → IsPending test ((k, v) ∷ t) ps
  unfolding lookup
  IsPending-cons k v t [] e h = tt
  IsPending-cons k v t (p ∷ ps) e h = (ground arith, h.1, h.2, IsPending-cons k v t ps e h.3)

  -- A query on rows under unique ids lists them so.
  pub select-IsPending :
      (last : ℕ) (t : Table Prediction) → IsKeyed last t → IsPending test t (select test (rows t))
  unfolding lookup
  select-IsPending last [] h = tt
  select-IsPending last ((k, p) ∷ t) h =
      let rest = select-IsPending last t h.3 in
      let lifted = IsPending-cons k p t _ h.2 rest in
      let other = AreOther-of_none k t _ h.2 rest in
      elim (Bool-cases (test p)) [
        | inl passes ↦ rw passes (ground arith, passes, rw (sym h.0) other, lifted)
        | inr fails ↦ rw fails lifted
      ]

  -- Writing one row leaves the others pending.
  pub IsPending-update :
      (k : ℕ) (f : Prediction → Prediction) (t : Table Prediction) (ps : List Prediction)
      → AreOther k ps
      → IsPending test t ps
      → IsPending test (update k f t) ps
  IsPending-update k f t [] o h = tt
  IsPending-update k f t (p ∷ ps) o h =
      (lookup-update k p.id f t ∙ rw o.0 h.0, h.1, h.2, IsPending-update k f t ps o.1 h.3)

-- WHERE market_id = m AND status = 'open'
abbrev pub is_open_in : ℕ → Prediction → Bool
is_open_in m p = (p.market_id == m) && is_open p.status

-- The rows of the query are as many as the open predictions of the market.
pub length-open_rows :
    (m : ℕ) (t : Table Prediction) → length (select (is_open_in m) (rows t)) ≡ open_count m t
unfolding sum_rows
length-open_rows m [] = refl
length-open_rows m ((k, p) ∷ t) = ground (arith, length-open_rows m t)

-- One row is written and the wallet moves the user's locked balance with the row's open stake.
pub IsBacked-write :
    (p : Prediction) (f : Prediction → Prediction) (w : Wallet) (db : Db)
    → ((q : Prediction) → (f q).id ≡ q.id)
    → lookup p.id db.predictions ≡ some p
    → ((j : ℕ)
        → locked_of j w +ℤ pos (open_stake_of j p)
          ≡ locked_of j db.wallet +ℤ pos (open_stake_of j (f p)))
    → IsConsistent w
    → IsBacked db
    → IsBacked (record db { wallet = w; predictions = update p.id f db.predictions })
IsBacked-write p f w db keeps e moved c h = record {
  backed = λ j.
      let sums = sum_rows-update (open_stake_of j) p.id f p db.predictions e in
      eq_of_parts _ _ (omega (int_laws, sums, parts_of_eq (moved j), parts_of_eq (h.backed j)));
  consistent = c;
  keyed = IsKeyed-update db.last_prediction_id p.id f db.predictions keeps h.keyed;
}
