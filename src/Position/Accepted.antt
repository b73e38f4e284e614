-- ===== src/Position/Accepted.antt =====
-- What an accepted position action has been checked for.
use gotrendlabs.Prelude.{ℕ, ◌+◌, ◌≤◌, ◌<◌, ◌≡◌, true, false, List, arith, ok}
use gotrendlabs.Prelude.Int.{pos, ◌≤ℤ◌}
use gotrendlabs.Wallet.{ensure_wallet_balance, wallet_summary}
use gotrendlabs.Db.{Db, Market, MarketOption, Prediction}
use gotrendlabs.Decimal.{position_penalty}
use gotrendlabs.Position.Config.{position_config}
use gotrendlabs.Position.Queries.{
  is_opened, total_stake, reinforcement_count, revision_count, revision_window_is_closed,
}
use gotrendlabs.Position.Validate.{
  Preview, reinforce, revise, validate_reinforcement, validate_revision,
}

-- An accepted reinforcement.
pub record AcceptedReinforcement (u : ℕ) (market : Market) (option : MarketOption) (stake : ℕ)
    (active : List Prediction) (db : Db) (r : Preview × Db) : Type 0 where
  pub action : r.0.action ≡ reinforce
  pub stake_is : r.0.stake_amount ≡ stake
  pub is_open : is_opened market.status ≡ true
  pub below_limit :
      reinforcement_count u market.id db < (position_config db.site_config).reinforcement_max_count
  pub at_least : (position_config db.site_config).reinforcement_min_gtl ≤ stake
  pub covered : pos stake ≤ℤ (wallet_summary u db.wallet).0.available_gtl
  pub state : r.1 ≡ record db { wallet = ensure_wallet_balance u db.wallet }

-- An accepted revision.
pub record AcceptedRevision (u now : ℕ) (market : Market) (option : MarketOption)
    (active : List Prediction) (db : Db) (r : Preview × Db) : Type 0 where
  pub action : r.0.action ≡ revise
  pub is_open : is_opened market.status ≡ true
  pub below_limit :
      revision_count u market.id db < (position_config db.site_config).revision_max_count
  pub in_time :
      revision_window_is_closed now (position_config db.site_config).revision_cutoff_hours market
      ≡ false
  pub penalty :
      r.0.penalty_amount
      ≡ position_penalty
          (total_stake active)
          (position_config db.site_config).revision_penalty_percent
  pub split : total_stake active ≡ r.0.new_position_stake_amount + r.0.penalty_amount
  pub at_least :
      (position_config db.site_config).revision_min_remaining_gtl ≤ r.0.new_position_stake_amount
  pub state : r.1 ≡ record db { wallet = ensure_wallet_balance u db.wallet }

module _ (u : ℕ) (market : Market) (option : MarketOption) (stake : ℕ) (active : List Prediction)
    (db : Db) (r : Preview × Db) where
  -- A reinforcement that is accepted stakes what was asked for in an open market: below the limit of
  -- reinforcements, at least the configured minimum, at most the available balance; and at most the
  -- wallet row has been made.
  pub validate_reinforcement-eq-ok :
      validate_reinforcement u market option stake active db ≡ ok r
      → AcceptedReinforcement u market option stake active db r
  unfolding validate_reinforcement wallet_summary
  validate_reinforcement-eq-ok e = ground arith

module _ (u now : ℕ) (market : Market) (option : MarketOption) (stake : ℕ)
    (active : List Prediction) (db : Db) (r : Preview × Db) where
  -- A revision that is accepted is below the limit of revisions, in an open market and before the
  -- cutoff; its penalty is the configured share of the active stake, what is left is the new stake
  -- and at least the configured minimum; and at most the wallet row has been made.
  pub validate_revision-eq-ok :
      validate_revision u now market option stake active db ≡ ok r
      → AcceptedRevision u now market option active db r
  unfolding validate_revision wallet_summary
  validate_revision-eq-ok e = ground arith
