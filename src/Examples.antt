-- ===== src/Examples.antt =====
-- One forecaster and one market, from the first prediction to the undone resolution, and the
-- theorems at these states.
mod Settlements
mod Statuses
mod Wallets
mod Invitations
mod Numbers
mod Toys
mod Ledgers
mod Audits
mod Desks
mod Reaching
mod Daemons
mod Commitments
mod Seals
use gotrendlabs.Prelude.{
  ℕ, ◌≡◌, Bool, true, false, Option, none, some, List, [], ◌∷◌, refl, Result, ok, err, arith, ◌==◌,
}
use gotrendlabs.Prelude.Int.{pos, ◌+ℤ◌, neg, ◌-ℤ◌}
use gotrendlabs.Prelude.Table.{lookup, update, insert_new, or_else}
use gotrendlabs.Wallet.{
  Wallet, add, deltas, ledger_wallet_totals, ensure_wallet_balance, record_wallet_entry,
  wallet_summary,
}
use gotrendlabs.Wallet.Consistency.{IsConsistent, balance_of}
use gotrendlabs.Db.{
  Db, Market, MarketOption, MarketStatus, Prediction, PredictionStatus, ActionType, initial,
  has_definition, sum_rows,
}
use gotrendlabs.Db.Backing.{IsBacked}
use gotrendlabs.Decimal.{position_penalty, payout, probability_floor}
use gotrendlabs.Position.Config.{position_config}
use gotrendlabs.Position.Queries.{
  active_positions, revision_window_is_closed, revision_count, reinforcement_count,
}
use gotrendlabs.Position.Snapshot.{market_probability_snapshot}
use gotrendlabs.Position.Validate.{
  validate_position_action, load_market_for_position, load_market_option, PositionPayload, Preview,
  reinforce, revise,
}
use gotrendlabs.Position.Write.{insert_prediction_position, create_initial_prediction}
use gotrendlabs.Position.Apply.{create_prediction, apply_position_action}
use gotrendlabs.Position.Admission.{Admitted, create_prediction-eq-ok}
use gotrendlabs.Position.Handlers.{create_prediction-IsBacked, apply_position_action-IsBacked}
use gotrendlabs.Lifecycle.Engine.{ensure_user_core}
use gotrendlabs.Lifecycle.Settling.{api, KeepsStakes-IsBacked, ensure_user_core-KeepsStakes}

abbrev pub no_money : Wallet
no_money = record { ledger = []; last_id = 0; balances = []; messages = [] }

abbrev pub election : Market
election = record {
  id = 1;
  slug = 7;
  status = MarketStatus.opened;
  close_at = none;
  auto_close_enabled = false;
  is_featured = true;
  winning_option_id = none;
  published_at = some 1;
  resolved_at = none;
  seal_due_at = none;
  canceled_at = none;
  updated_by_id = none;
  updated_at = 1;
}

abbrev option_of : ℕ → MarketOption
option_of id = record { id = id; market_id = 1; probability_exact = 500_000 }

abbrev pub empty_db : Db
empty_db = record {
  wallet = no_money;
  predictions = [];
  last_prediction_id = 0;
  markets = (1, election) ∷ [];
  options = option_of 1 ∷ option_of 2 ∷ [];
  users = (5, record { is_bot = false; is_staff = false; is_superuser = false }) ∷ [];
  reputations = [];
  site_config = none;
  definitions = 1 ∷ [];
  calls = [];
}

pub no_money-IsConsistent : IsConsistent no_money
unfolding lookup
no_money-IsConsistent = record { rows = λ u b e. cc }

empty-IsBacked : IsBacked empty_db
unfolding lookup balance_of ledger_wallet_totals sum_rows
empty-IsBacked = record { backed = λ u. refl; consistent = no_money-IsConsistent; keyed = tt }

-- The forecaster has signed up.
abbrev pub started : Db
started = ensure_user_core 5 empty_db

pub started-IsBacked : IsBacked started
started-IsBacked =
    KeepsStakes-IsBacked empty_db started (ensure_user_core-KeepsStakes 5 empty_db) empty-IsBacked

abbrev pub state_of : {A : Type 0} → Db → Result (A × Db) → Db
state_of db (ok (a, db')) = db'
state_of db (err e) = db

abbrev pub no_prediction : Prediction
no_prediction = record {
  id = 0;
  user_id = 0;
  market_id = 0;
  market_option_id = 0;
  action_type = initial;
  position_sequence = 0;
  stake_amount = 0;
  probability_at_entry = 0;
  weight_at_entry = 0;
  potential_payout = 0;
  status = PredictionStatus.opened;
  won = none;
  superseded_by_id = none;
  superseded_at = none;
  created_at = 0;
  updated_at = 0;
}

-- The first prediction of 100 on the option 1.
abbrev pub placed : Db
placed = state_of started (create_prediction 7 1 100 5 10 started)

abbrev pub prediction_of : ℕ → Db → Prediction
prediction_of id db = or_else (lookup id db.predictions) no_prediction

abbrev pub placed_prediction : Prediction
placed_prediction = prediction_of 1 placed

pub placed_eq : create_prediction 7 1 100 5 10 started ≡ ok (placed_prediction, placed)
unfolding create_prediction load_market_for_position ensure_user_core lookup load_market_option
    wallet_summary record_wallet_entry update insert_new add ◌+ℤ◌ deltas ledger_wallet_totals
    create_initial_prediction has_definition market_probability_snapshot
placed_eq = refl

pub placed-IsBacked : IsBacked placed
placed-IsBacked = create_prediction-IsBacked 7 1 100 5 10 started started-IsBacked placed_eq

create_prediction-IsBacked_example : IsBacked placed
create_prediction-IsBacked_example =
    create_prediction-IsBacked 7 1 100 5 10 started started-IsBacked placed_eq

create_prediction-eq-ok_example : Admitted 7 1 100 5 10 started
create_prediction-eq-ok_example = create_prediction-eq-ok 7 1 100 5 10 started placed_eq

-- It is revised to the option 2, at a penalty of 20.
abbrev pub to_other : PositionPayload
to_other = record { action = revise; option_id = 2; stake_amount = 0 }

abbrev revised_state : Result (Prediction × Preview × Db) → Db
revised_state (ok r) = r.2
revised_state (err e) = placed

abbrev pub preview_of : Result (Prediction × Preview × Db) → Preview
preview_of (ok r) = r.1
preview_of (err e) = record {
  action = revise;
  active_stake_amount = 0;
  active_position_count = 0;
  stake_amount = 0;
  penalty_amount = 0;
  new_position_stake_amount = 0;
  position_total_after = 0;
  probability_exact = 0;
  estimated_return = 0;
  reinforcement_remaining = 0;
  revision_remaining = 0;
}

abbrev pub moved : Db
moved = revised_state (apply_position_action 7 to_other 5 20 placed)

pub moved_eq :
    apply_position_action 7 to_other 5 20 placed
    ≡ ok (prediction_of 2 moved, preview_of (apply_position_action 7 to_other 5 20 placed), moved)
unfolding apply_position_action create_prediction load_market_for_position ensure_user_core lookup
    load_market_option wallet_summary record_wallet_entry update insert_new add ◌+ℤ◌ deltas
    ledger_wallet_totals create_initial_prediction has_definition market_probability_snapshot
    validate_position_action active_positions position_config revision_window_is_closed
    revision_count position_penalty insert_prediction_position probability_floor payout
    reinforcement_count
moved_eq = refl

pub moved-IsBacked : IsBacked moved
moved-IsBacked = apply_position_action-IsBacked 7 to_other 5 20 placed placed-IsBacked moved_eq

apply_position_action-IsBacked_example : IsBacked moved
apply_position_action-IsBacked_example =
    apply_position_action-IsBacked 7 to_other 5 20 placed placed-IsBacked moved_eq
