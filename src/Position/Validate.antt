-- ===== src/Position/Validate.antt =====
-- Loading the market and the option, and `_validate_position_action`.
use gotrendlabs.Prelude.{
  ℕ, ◌+◌, ◌-◌, Bool, not, Option, none, some, List, [], ◌∷◌, ◌==◌, ltb, ◌&&◌, if◌then◌else◌, Result,
  ok, err, raise_if, ◌>>=◌, ◌>>◌, market_not_found, option_invalid, invalid_action,
  no_active_position, market_closed, reinforcement_disabled, reinforcement_limit,
  reinforcement_other_option, reinforcement_below_minimum, revision_disabled, revision_same_option,
  revision_window_closed, revision_limit, revision_below_minimum, insufficient_balance,
}
use gotrendlabs.Prelude.Int.{pos, ltb_ℤ}
use gotrendlabs.Prelude.Lists.{length}
use gotrendlabs.Wallet.{wallet_summary}
use gotrendlabs.Decimal.{payout, probability_floor, position_penalty}
use gotrendlabs.Db.{Db, Market, MarketOption, Prediction, rows}
use gotrendlabs.Position.Config.{PositionConfig, position_config}
use gotrendlabs.Position.Queries.{
  is_opened, with_effective_market_status, revision_count, reinforcement_count,
  revision_window_is_closed, last?, total_stake,
}

-- PositionActionPayload.action, after `strip().lower()`
pub data PositionAction : Type 0 where
  reinforce revise other_action : PositionAction

pub record PositionPayload : Type 0 where
  pub action : PositionAction
  pub option_id : ℕ
  pub stake_amount : ℕ

-- The dictionary that `_validate_position_action` returns.
pub record Preview : Type 0 where
  pub action : PositionAction
  pub active_stake_amount : ℕ
  pub active_position_count : ℕ
  pub stake_amount : ℕ
  pub penalty_amount : ℕ
  pub new_position_stake_amount : ℕ
  pub position_total_after : ℕ
  pub probability_exact : ℕ
  pub estimated_return : ℕ
  pub reinforcement_remaining : ℕ
  pub revision_remaining : ℕ

abbrev pub find_market : ℕ → List Market → Option Market
find_market slug [] = none
find_market slug (m ∷ ms) = if m.slug == slug then some m else find_market slug ms

abbrev pub find_option : ℕ → ℕ → List MarketOption → Option MarketOption
find_option m id [] = none
find_option m id (o ∷ os) =
    if (o.id == id) && (o.market_id == m) then some o else find_option m id os

abbrev pub or_raise : {A : Type 0} → Option A → Result A → Result A
or_raise none e = e
or_raise (some a) e = ok a

-- `_load_market_for_position`
unfoldable pub load_market_for_position : ℕ → ℕ → Db → Result Market
unfolding with_effective_market_status
load_market_for_position slug now db = do
  m ← or_raise (find_market slug (rows db.markets)) (err market_not_found)
  ok (with_effective_market_status now m)

-- `_load_market_option`
unfoldable pub load_market_option : ℕ → ℕ → Db → Result MarketOption
load_market_option m id db = or_raise (find_option m id db.options) (err option_invalid)

-- The guards of a reinforcement.
unfoldable pub check_reinforcement : PositionConfig → ℕ → ℕ → ℕ → ℕ → Result (Unit {0})
check_reinforcement config remaining option_id active_option_id stake = do
  raise_if (not config.reinforcement_enabled) reinforcement_disabled
  raise_if (remaining == 0) reinforcement_limit
  raise_if (not (option_id == active_option_id)) reinforcement_other_option
  raise_if (ltb stake config.reinforcement_min_gtl) reinforcement_below_minimum

-- The guards of a revision; `new_stake < minimum` with the penalty on the other side.
unfoldable pub check_revision : PositionConfig → Bool → ℕ → ℕ → ℕ → ℕ → ℕ → Result (Unit {0})
check_revision config window_closed remaining option_id active_option_id active_stake penalty = do
  raise_if (not config.revision_enabled) revision_disabled
  raise_if (option_id == active_option_id) revision_same_option
  raise_if window_closed revision_window_closed
  raise_if (remaining == 0) revision_limit
  raise_if (ltb active_stake (config.revision_min_remaining_gtl + penalty)) revision_below_minimum

abbrev pub or_last : List Prediction → Result Prediction
or_last ps = or_raise (last? ps) (err no_active_position)

-- `_validate_position_action` for an action that is one of the two. `last` is `active[-1]`.
unfoldable pub validate_reinforcement :
    ℕ → Market → MarketOption → ℕ → List Prediction → Db → Result (Preview × Db)
unfolding check_reinforcement
validate_reinforcement u market option stake active db = do
  let config = position_config db.site_config
  last ← or_last active
  raise_if (not (is_opened market.status)) market_closed
  let remaining = config.reinforcement_max_count - reinforcement_count u market.id db
  check_reinforcement config remaining option.id last.market_option_id stake
  let (balance, w) = wallet_summary u db.wallet
  raise_if (ltb_ℤ balance.available_gtl (pos stake)) insufficient_balance
  let p = probability_floor option.probability_exact
  ok (
    record {
      action = reinforce;
      active_stake_amount = total_stake active;
      active_position_count = length active;
      stake_amount = stake;
      penalty_amount = 0;
      new_position_stake_amount = stake;
      position_total_after = total_stake active + stake;
      probability_exact = p;
      estimated_return = payout stake p;
      reinforcement_remaining = remaining - 1;
      revision_remaining = config.revision_max_count - revision_count u market.id db;
    },
    record db { wallet = w },
  )

unfoldable pub validate_revision :
    ℕ → ℕ → Market → MarketOption → ℕ → List Prediction → Db → Result (Preview × Db)
unfolding check_revision
validate_revision u now market option stake active db = do
  let config = position_config db.site_config
  last ← or_last active
  raise_if (not (is_opened market.status)) market_closed
  let active_stake = total_stake active
  let remaining = config.revision_max_count - revision_count u market.id db
  let penalty = position_penalty active_stake config.revision_penalty_percent
  let closed = revision_window_is_closed now config.revision_cutoff_hours market
  check_revision config closed remaining option.id last.market_option_id active_stake penalty
  let (balance, w) = wallet_summary u db.wallet
  let p = probability_floor option.probability_exact
  let new_stake = active_stake - penalty
  ok (
    record {
      action = revise;
      active_stake_amount = active_stake;
      active_position_count = length active;
      stake_amount = stake;
      penalty_amount = penalty;
      new_position_stake_amount = new_stake;
      position_total_after = new_stake;
      probability_exact = p;
      estimated_return = payout new_stake p;
      reinforcement_remaining = config.reinforcement_max_count - reinforcement_count u market.id db;
      revision_remaining = remaining - 1;
    },
    record db { wallet = w },
  )

-- `_validate_position_action`
unfoldable pub validate_position_action :
    ℕ
    → ℕ
    → Market
    → MarketOption
    → PositionAction
    → ℕ
    → List Prediction
    → Db
    → Result (Preview × Db)
unfolding validate_reinforcement validate_revision
validate_position_action u now market option reinforce stake active db =
    validate_reinforcement u market option stake active db
validate_position_action u now market option revise stake active db =
    validate_revision u now market option stake active db
validate_position_action u now market option other_action stake active db = err invalid_action
