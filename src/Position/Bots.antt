-- ===== src/Position/Bots.antt =====
-- `_create_bot_prediction` of `apps/api/backend_api/agent_services.py`: the first prediction of an
-- official bot, written by the same service as a user's. The market and the option are those that
-- the cycle chose. The market's public metrics are not modelled.
use gotrendlabs.Prelude.{
  ℕ, Bool, true, Option, none, some, Result, ok, raise_if, ◌>>=◌, ◌>>◌,
  bot_already_predicted_market, insufficient_bot_balance,
}
use gotrendlabs.Prelude.Int.{pos, ltb_ℤ}
use gotrendlabs.Prelude.Table.{lookup}
use gotrendlabs.Wallet.{Balance}
use gotrendlabs.Db.{Db, MarketOption}
use gotrendlabs.Position.Snapshot.{market_probability_snapshot}
use gotrendlabs.Position.Write.{create_initial_prediction}
use gotrendlabs.Position.Apply.{has_prediction}

-- `not balance or int(balance["available_gtl"] or 0) < stake`
abbrev pub cannot_stake : ℕ → Option Balance → Bool
cannot_stake stake none = true
cannot_stake stake (some b) = ltb_ℤ b.available_gtl (pos stake)

-- `_create_bot_prediction`, with the id of the prediction
unfoldable pub create_bot_prediction : ℕ → ℕ → MarketOption → ℕ → ℕ → Db → Result (ℕ × Db)
create_bot_prediction u market_id option stake now db = do
  raise_if (has_prediction u market_id db) bot_already_predicted_market
  raise_if (cannot_stake stake (lookup u db.wallet.balances)) insufficient_bot_balance
  (p, db1) ← create_initial_prediction u market_id option stake now db
  ok (p.id, market_probability_snapshot market_id db1)
