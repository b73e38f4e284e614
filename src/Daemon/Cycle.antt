-- ===== src/Daemon/Cycle.antt =====
-- `close_due_auto_markets`.
use gotrendlabs.Prelude.{
  ℕ, Bool, true, false, not, Option, none, some, List, [], ◌∷◌, ◌++◌, ◌==◌, leb, ◌&&◌,
  if◌then◌else◌, Result, ok, ◌>>=◌,
}
use gotrendlabs.Prelude.Lists.{select, length}
use gotrendlabs.Db.{Db, Market, Prediction, rows, is_open, is_bot}
use gotrendlabs.Lifecycle.Engine.{Engine}
use gotrendlabs.Lifecycle.Undo.{affected_users}
use gotrendlabs.Lifecycle.Transitions.{can_lock, cancel_market, lock_market_automatically}

-- `close_at IS NOT NULL AND close_at <= now`
abbrev pub close_is_due : ℕ → Option ℕ → Bool
close_is_due now none = false
close_is_due now (some close_at) = leb close_at now

-- The WHERE clause of the query on the markets.
abbrev pub is_closable : ℕ → Market → Bool
is_closable now row = can_lock row.status && row.auto_close_enabled && close_is_due now row.close_at

-- `FOR UPDATE SKIP LOCKED`: a row that another transaction has locked is left out.
abbrev pub must_close : (ℕ → Bool) → ℕ → Market → Bool
must_close skips now row = is_closable now row && not (skips row.id)

abbrev pub close_or_zero : Option ℕ → ℕ
close_or_zero none = 0
close_or_zero (some close_at) = close_at

-- ORDER BY close_at ASC, id ASC, for rows that come in id order.
unfoldable pub insert_by_close : Market → List Market → List Market
insert_by_close r [] = r ∷ []
insert_by_close r (q ∷ qs) =
    if leb (close_or_zero r.close_at) (close_or_zero q.close_at)
    then r ∷ q ∷ qs
    else q ∷ insert_by_close r qs

unfoldable pub order_by_close : List Market → List Market
unfolding insert_by_close
order_by_close [] = []
order_by_close (r ∷ rs) = insert_by_close r (order_by_close rs)

unfoldable pub due_markets : (ℕ → Bool) → ℕ → Db → List Market
unfolding order_by_close
due_markets skips now db = order_by_close (select (must_close skips now) (rows db.markets))

-- WHERE market_id = m AND status = 'open' AND NOT is_bot
abbrev is_human_open : ℕ → Db → Prediction → Bool
is_human_open m db p = (p.market_id == m) && is_open p.status && not (is_bot p.user_id db)

-- COUNT(DISTINCT user_id) of these rows
unfoldable pub human_predictions : ℕ → Db → ℕ
unfolding affected_users
human_predictions m db = length (affected_users (select (is_human_open m db) (rows db.predictions)))

-- An entry of the list that the cycle returns.
pub record ClosedMarket : Type 0 where
  pub id : ℕ
  pub slug : ℕ
  pub close_at : Option ℕ

-- The body of the loop. The note of an automatic cancellation is a constant, and `cancel_market`
-- reads the clock itself.
unfoldable pub close_market :
    Engine → ℕ → ℕ → Market → List ClosedMarket → Db → Result (List ClosedMarket × Db)
unfolding human_predictions
close_market e now clock row closed db =
    if human_predictions row.id db == 0
    then (cancel_market e row true clock db >>= λ db'. ok (closed, db'))
    else lock_market_automatically e row now db >>= λ db'.
        ok (closed ++ record { id = row.id; slug = row.slug; close_at = row.close_at } ∷ [], db')

unfoldable pub close_each :
    Engine → ℕ → ℕ → List Market → List ClosedMarket → Db → Result (List ClosedMarket × Db)
unfolding close_market
close_each e now clock [] closed db = ok (closed, db)
close_each e now clock (row ∷ rows) closed db =
    close_market e now clock row closed db >>= λ r. close_each e now clock rows r.0 r.1

-- `close_due_auto_markets`, with the daemon's engine
unfoldable pub close_due_auto_markets :
    Engine → (ℕ → Bool) → ℕ → ℕ → Db → Result (List ClosedMarket × Db)
unfolding due_markets close_each
close_due_auto_markets e skips now clock db =
    close_each e now clock (due_markets skips now db) [] db
