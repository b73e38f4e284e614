-- ===== src/Examples/Settlements.antt =====
-- The market of the parent module is closed, resolved, reopened and canceled.
use gotrendlabs.Prelude.{
  ℕ, ◌≡◌, true, false, none, some, [], ◌∷◌, refl, Result, ok, err, ◌||◌, Succeeds,
}
use gotrendlabs.Prelude.Lists.{All}
use gotrendlabs.Prelude.Table.{lookup, update, or_else}
use gotrendlabs.Prelude.{arith}
use gotrendlabs.Prelude.Int.{pos, ◌+ℤ◌, neg}
use gotrendlabs.Wallet.{
  Wallet, LedgerEntry, EntryType, grant_initial, prediction_stake_lock, Direction, lock, credit,
  Reference, prediction, auth_register, add, ledger_wallet_totals, entry_totals,
}
use gotrendlabs.Wallet.Consistency.{IsConsistent, balance_of}
use gotrendlabs.Db.{
  has_definition, is_bot, set_prediction, Prediction, PredictionStatus, initial, sum_rows, Db,
  Market, MarketOption, MarketStatus, open_predictions, open_count, resolved_predictions,
}
use gotrendlabs.Db.Backing.{IsBacked}
use gotrendlabs.Position.Validate.{find_option}
use gotrendlabs.Lifecycle.Engine.{Engine, api_engine, ensure_user_core}
use gotrendlabs.Lifecycle.Refund.{has_refund}
use gotrendlabs.Lifecycle.Settlement.{resolve_market_predictions}
use gotrendlabs.Lifecycle.Reputation.{apply_reputation_delta, recalculate_user_reputation}
use gotrendlabs.Lifecycle.Undo.{undo_resolved_market_predictions}
use gotrendlabs.Lifecycle.Settling.{api}
use gotrendlabs.Lifecycle.Transitions.{
  ResolvePayload, resolve_market, cancel_market, status_of, undo_is_late,
}
use gotrendlabs.Lifecycle.Resolving.{resolve_market_predictions-closes}
use gotrendlabs.Lifecycle.Resolution.{IsResolved, resolve_market-IsResolved}
use gotrendlabs.Lifecycle.Refunding.{IsUnrefunded}
use gotrendlabs.Lifecycle.Canceling.{IsCanceled, cancel_market-IsCanceled}
use gotrendlabs.Lifecycle.Reopening.{
  cancel_market-undoes, undo_resolved_market_predictions-IsBacked,
}
use gotrendlabs.Examples.{election, empty_db}

abbrev pub accept : ℕ → Db → Result (Unit {0})
accept m db = ok tt

abbrev pub engine : Engine
engine = api (some 9) accept accept accept accept accept

abbrev pub engine_of_nobody : Engine
engine_of_nobody = api none accept accept accept accept accept

abbrev pub closed_market : Market
closed_market = record election { status = MarketStatus.locked }

-- The forecaster 5 has 80 of 2000 credits in the option 2.
abbrev pub stake_of_80 : Prediction
stake_of_80 = record {
  id = 1;
  user_id = 5;
  market_id = 1;
  market_option_id = 2;
  action_type = initial;
  position_sequence = 1;
  stake_amount = 80;
  probability_at_entry = 333_333;
  weight_at_entry = 8_000;
  potential_payout = 240;
  status = PredictionStatus.opened;
  won = none;
  superseded_by_id = none;
  superseded_at = none;
  created_at = 10;
  updated_at = 10;
}

abbrev entry_of : ℕ → EntryType → ℕ → Direction → Reference → LedgerEntry
entry_of id t amount d r = record {
  id = id;
  user_id = 5;
  entry_type = t;
  amount = amount;
  direction = d;
  reference = r;
  created_by_id = none;
}

abbrev pub wallet_of_80 : Wallet
wallet_of_80 = record {
  ledger =
      entry_of 2 prediction_stake_lock 80 lock (prediction 1)
      ∷ entry_of 1 grant_initial 2000 credit (auth_register 5)
      ∷ [];
  last_id = 2;
  balances =
      (5, record { available_gtl = pos 1920; locked_gtl = pos 80; total_earned_gtl = pos 0 }) ∷ [];
  messages = [];
}

abbrev pub closed : Db
closed = record empty_db {
  wallet = wallet_of_80;
  predictions = (1, stake_of_80) ∷ [];
  last_prediction_id = 1;
  markets = (1, closed_market) ∷ [];
}

pub wallet_of_80-IsConsistent : IsConsistent wallet_of_80
unfolding lookup ledger_wallet_totals add ◌+ℤ◌ neg entry_totals
wallet_of_80-IsConsistent = record { rows = λ u b e. ground arith }

pub closed-IsBacked : IsBacked closed
unfolding lookup balance_of ledger_wallet_totals add ◌+ℤ◌ neg sum_rows
closed-IsBacked = record {
  backed = λ u. ground arith;
  consistent = wallet_of_80-IsConsistent;
  keyed = (refl, omega arith, refl, tt);
}

abbrev pub or_state : Db → Result Db → Db
or_state db (ok db') = db'
or_state db (err e) = db

abbrev pub payload : ResolvePayload
payload = record {
  has_source_url = true;
  has_note = false;
  winning_option_id = 2;
  resolved_at = none;
  timezone_is_known = true;
}

abbrev resolved_db : Db
resolved_db = or_state closed (resolve_market engine 1 payload 30 closed)

resolved_eq : resolve_market engine 1 payload 30 closed ≡ ok resolved_db
unfolding resolve_market lookup api_engine has_definition resolve_market_predictions
    open_predictions is_bot set_prediction apply_reputation_delta ensure_user_core update
resolved_eq = refl

resolved_db-IsResolved : IsResolved 1 resolved_db
resolved_db-IsResolved =
    (resolve_market-IsResolved (some 9) accept accept accept accept accept 1 30 payload closed
      closed-IsBacked resolved_eq).0

resolve_market-IsResolved_example :
    IsResolved 1 resolved_db
    × (status_of 1 closed ≡ some MarketStatus.locked)
    × ((payload.has_source_url || payload.has_note) ≡ true)
    × ((o : MarketOption) × (find_option 1 payload.winning_option_id closed.options ≡ some o))
resolve_market-IsResolved_example =
    resolve_market-IsResolved (some 9) accept accept accept accept accept 1 30 payload closed
      closed-IsBacked resolved_eq

resolve_market_predictions-closes_example :
    let db' = resolve_market_predictions engine 1 2 30 closed in
    IsBacked db' × (open_count 1 db'.predictions ≡ 0)
resolve_market_predictions-closes_example =
    resolve_market_predictions-closes (some 9) accept accept accept accept accept 1 2 30 closed
      closed-IsBacked

-- The resolution is undone.
abbrev resolved_market : Market
resolved_market = or_else (lookup 1 resolved_db.markets) election

abbrev undone : Db
undone = or_state resolved_db (cancel_market engine resolved_market true 40 resolved_db)

undone_eq : cancel_market engine resolved_market true 40 resolved_db ≡ ok undone
unfolding resolve_market lookup api_engine cancel_market has_definition resolve_market_predictions
    open_predictions is_bot set_prediction apply_reputation_delta ensure_user_core update
    undo_resolved_market_predictions resolved_predictions recalculate_user_reputation
undone_eq = refl

resolved_market_eq : lookup resolved_market.id resolved_db.markets ≡ some resolved_market
unfolding resolve_market lookup api_engine has_definition resolve_market_predictions
    open_predictions is_bot set_prediction apply_reputation_delta ensure_user_core update
resolved_market_eq = refl

resolved_market_status : resolved_market.status ≡ MarketStatus.resolved
unfolding resolve_market lookup api_engine has_definition resolve_market_predictions
    open_predictions is_bot set_prediction apply_reputation_delta ensure_user_core update
resolved_market_status = refl

cancel_market-undoes_example :
    IsBacked undone
    × (status_of resolved_market.id undone ≡ some MarketStatus.locked)
    × (true ≡ true)
    × (undo_is_late 40 resolved_market.seal_due_at ≡ false)
cancel_market-undoes_example =
    cancel_market-undoes (some 9) accept accept accept accept accept resolved_market 40 resolved_db
      true resolved_market_status resolved_market_eq resolved_db-IsResolved.0 undone_eq

undo_resolved_market_predictions-IsBacked_example :
    IsBacked (undo_resolved_market_predictions engine 1 40 resolved_db)
undo_resolved_market_predictions-IsBacked_example =
    undo_resolved_market_predictions-IsBacked (some 9) accept accept accept accept accept 1 40
      resolved_db resolved_db-IsResolved.0

-- Or the closed market is canceled.
closed-IsUnrefunded : All (IsUnrefunded closed.wallet) (open_predictions 1 closed)
unfolding open_predictions has_refund lookup
closed-IsUnrefunded = ((refl, refl), tt)

pub closed_market_eq : lookup closed_market.id closed.markets ≡ some closed_market
unfolding lookup
closed_market_eq = refl

cancel_market-IsCanceled_example :
    Succeeds (IsCanceled 1) (cancel_market engine closed_market false 30 closed)
cancel_market-IsCanceled_example =
    cancel_market-IsCanceled (some 9) accept accept accept accept accept closed_market 30 closed
      false refl closed-IsBacked closed-IsUnrefunded closed_market_eq (λ db. refl)
