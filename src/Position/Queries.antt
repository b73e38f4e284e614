-- ===== src/Position/Queries.antt =====
-- The queries on a user's predictions in one market, and the effective status of a market.
use gotrendlabs.Prelude.{
  ℕ, ◌+◌, ◌*◌, max, Bool, true, false, Option, none, some, List, [], ◌∷◌, leb, ◌&&◌, not,
  if◌then◌else◌,
}
use gotrendlabs.Prelude.Lists.{select, length, sum_by}
use gotrendlabs.Db.{
  Db, Market, MarketStatus, Prediction, ActionType, reinforcement, revision, rows, is_of, is_open,
}

abbrev pub is_opened : MarketStatus → Bool
is_opened MarketStatus.opened = true
is_opened _ = false

-- `_effective_market_status`: an open market whose automatic close is due counts as locked.
unfoldable pub effective_market_status : ℕ → Market → MarketStatus
effective_market_status now m =
    if not (is_opened m.status)
    then m.status
    else if not m.auto_close_enabled
    then m.status
    else elim m.close_at [
      | none ↦ m.status
      | some target ↦ if leb target now then MarketStatus.locked else m.status
    ]

-- `_with_effective_market_status`
unfoldable pub with_effective_market_status : ℕ → Market → Market
unfolding effective_market_status
with_effective_market_status now m = record m { status = effective_market_status now m }

-- ORDER BY created_at ASC, for rows that come in id order.
unfoldable pub insert_by_created : Prediction → List Prediction → List Prediction
insert_by_created p [] = p ∷ []
insert_by_created p (q ∷ qs) =
    if leb p.created_at q.created_at then p ∷ q ∷ qs else q ∷ insert_by_created p qs

unfoldable pub order_by_created : List Prediction → List Prediction
unfolding insert_by_created
order_by_created [] = []
order_by_created (p ∷ ps) = insert_by_created p (order_by_created ps)

-- `_active_positions`
unfoldable pub active_positions : ℕ → ℕ → Db → List Prediction
unfolding order_by_created
active_positions u m db =
    order_by_created (select (λ p. is_of u m p && is_open p.status) (rows db.predictions))

abbrev pub is_revision : ActionType → Bool
is_revision revision = true
is_revision _ = false

abbrev pub is_reinforcement : ActionType → Bool
is_reinforcement reinforcement = true
is_reinforcement _ = false

-- `_revision_count`
unfoldable pub revision_count : ℕ → ℕ → Db → ℕ
revision_count u m db =
    length (select (λ p. is_of u m p && is_revision p.action_type) (rows db.predictions))

-- `_reinforcement_count`
unfoldable pub reinforcement_count : ℕ → ℕ → Db → ℕ
reinforcement_count u m db =
    length (select (λ p. is_of u m p && is_reinforcement p.action_type) (rows db.predictions))

abbrev max_sequence : List Prediction → ℕ
max_sequence [] = 0
max_sequence (p ∷ ps) = max p.position_sequence (max_sequence ps)

-- `_next_position_sequence`
unfoldable pub next_position_sequence : ℕ → ℕ → Db → ℕ
next_position_sequence u m db = max_sequence (select (is_of u m) (rows db.predictions)) + 1

-- An hour in microseconds.
abbrev pub hour : ℕ
hour = 3_600_000_000

-- Whether `now >= _revision_cutoff_at(market, config)`, with the cutoff hours on the other side.
unfoldable pub revision_window_is_closed : ℕ → ℕ → Market → Bool
revision_window_is_closed now cutoff_hours m = elim m.close_at [
  | none ↦ false
  | some close_at ↦ leb close_at (now + cutoff_hours * hour)
]

-- `active[-1]`, when there is one
abbrev pub last? : List Prediction → Option Prediction
last? [] = none
last? (p ∷ []) = some p
last? (p ∷ q ∷ qs) = last? (q ∷ qs)

abbrev pub total_stake : List Prediction → ℕ
total_stake = sum_by (λ p. p.stake_amount)
