-- ===== src/Db/Queries.antt =====
-- SELECTs and small UPDATEs.
use gotrendlabs.Prelude.{
  ℕ, ◌+◌, Bool, true, false, none, some, List, [], ◌∷◌, ◌==◌, ◌&&◌, if◌then◌else◌,
}
use gotrendlabs.Prelude.Lists.{select, any}
use gotrendlabs.Prelude.Table.{Table, lookup, update}
use gotrendlabs.Wallet.{Wallet}
use gotrendlabs.Db.Tables.{Db, Prediction, PredictionStatus, Call}

abbrev pub is_open : PredictionStatus → Bool
is_open PredictionStatus.opened = true
is_open _ = false

abbrev pub is_resolved : PredictionStatus → Bool
is_resolved PredictionStatus.resolved = true
is_resolved _ = false

abbrev pub rows {ℓ} : {V : Type ℓ} → Table V → List V
rows [] = []
rows ((k, v) ∷ t) = v ∷ rows t

-- WHERE user_id = u AND market_id = m
abbrev pub is_of : ℕ → ℕ → Prediction → Bool
is_of u m p = (p.user_id == u) && (p.market_id == m)

-- WHERE market_id = m AND status = 'open', in id order
unfoldable pub open_predictions : ℕ → Db → List Prediction
open_predictions m db = select (λ p. (p.market_id == m) && is_open p.status) (rows db.predictions)

-- WHERE market_id = m AND status = 'resolved', in id order
unfoldable pub resolved_predictions : ℕ → Db → List Prediction
resolved_predictions m db =
    select (λ p. (p.market_id == m) && is_resolved p.status) (rows db.predictions)

-- The stakes that a user has in open predictions.
abbrev pub open_stake_of : ℕ → Prediction → ℕ
open_stake_of u p = if (p.user_id == u) && is_open p.status then p.stake_amount else 0

-- A sum over the rows.
unfoldable pub sum_rows : (Prediction → ℕ) → Table Prediction → ℕ
sum_rows f [] = 0
sum_rows f ((k, p) ∷ t) = f p + sum_rows f t

abbrev pub open_stakes : ℕ → Table Prediction → ℕ
open_stakes u = sum_rows (open_stake_of u)

abbrev pub open_in : ℕ → Prediction → ℕ
open_in m p = if (p.market_id == m) && is_open p.status then 1 else 0

-- The number of open predictions of a market.
abbrev pub open_count : ℕ → Table Prediction → ℕ
open_count m = sum_rows (open_in m)

unfoldable pub set_prediction : ℕ → (Prediction → Prediction) → Db → Db
set_prediction id f db = record db { predictions = update id f db.predictions }

abbrev pub with_wallet : (Wallet → Wallet) → Db → Db
with_wallet f db = record db { wallet = f db.wallet }

abbrev pub call : Call → Db → Db
call c db = record db { calls = c ∷ db.calls }

-- `u.is_bot` of the join with the users
unfoldable pub is_bot : ℕ → Db → Bool
is_bot u db = elim (lookup u db.users) [ none ↦ false | some r ↦ r.is_bot ]

-- WHERE market_id = m
unfoldable pub has_definition : ℕ → Db → Bool
has_definition m db = any (λ d. d == m) db.definitions
