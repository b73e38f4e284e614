-- ===== src/Examples/Reaching.antt =====
-- From the empty database to a market that is canceled with a revised prediction in it.
use gotrendlabs.Prelude.{◌≡◌, some, false, refl, Succeeds, arith}
use gotrendlabs.Prelude.Int.{pos, ◌+ℤ◌}
use gotrendlabs.Prelude.Lists.{sum_by}
use gotrendlabs.Prelude.Table.{lookup, update, insert_new}
use gotrendlabs.Wallet.{add, deltas, ledger_wallet_totals, record_wallet_entry, wallet_summary}
use gotrendlabs.Wallet.Effects.{available_of}
use gotrendlabs.Db.{has_definition, open_predictions}
use gotrendlabs.Decimal.{position_penalty, payout, probability_floor}
use gotrendlabs.Position.Config.{position_config}
use gotrendlabs.Position.Queries.{
  active_positions, revision_window_is_closed, revision_count, reinforcement_count,
}
use gotrendlabs.Position.Snapshot.{market_probability_snapshot}
use gotrendlabs.Position.Validate.{
  validate_position_action, load_market_for_position, load_market_option,
}
use gotrendlabs.Position.Write.{insert_prediction_position, create_initial_prediction}
use gotrendlabs.Position.Apply.{create_prediction, apply_position_action}
use gotrendlabs.Lifecycle.Engine.{ensure_user_core, has_initial_grant}
use gotrendlabs.Lifecycle.Settlement.{resolve_market_predictions}
use gotrendlabs.Lifecycle.Canceling.{IsCanceled}
use gotrendlabs.Lifecycle.Returning.{Returns}
use gotrendlabs.Lifecycle.Transitions.{cancel_market}
use gotrendlabs.Lifecycle.Paying.{prize, AreGranted, AreCovered, resolve_market_predictions-Pays}
use gotrendlabs.Refunds.Rows.{IsSafe}
use gotrendlabs.Refunds.Reachable.{
  IsNew, Reach, here, next, opens_account, predicts, changes_position, Reach-IsSafe,
  Reach-cancel_market,
}
use gotrendlabs.Examples.{
  election, empty_db, placed, moved, placed_eq, moved_eq, to_other, preview_of, prediction_of,
}
use gotrendlabs.Examples.Settlements.{accept, engine, closed}

empty-IsNew : IsNew empty_db
empty-IsNew = record { no_entries = refl; no_balances = refl; no_predictions = refl }

Reach-moved : Reach empty_db moved
Reach-moved =
    next
      (next (next here (opens_account 5 refl))
        (predicts 7 1 100 5 10 (prediction_of 1 placed) placed_eq))
      (changes_position 7 to_other 5 20 (prediction_of 2 moved)
        (preview_of (apply_position_action 7 to_other 5 20 placed)) moved_eq)

pub moved-IsSafe : IsSafe moved
moved-IsSafe = Reach-IsSafe empty-IsNew Reach-moved

Reach-IsSafe_example : IsSafe moved
Reach-IsSafe_example = Reach-IsSafe empty-IsNew Reach-moved

moved_market_eq : lookup election.id moved.markets ≡ some election
unfolding apply_position_action create_prediction load_market_for_position ensure_user_core lookup
    load_market_option wallet_summary record_wallet_entry update insert_new add ◌+ℤ◌ deltas
    ledger_wallet_totals create_initial_prediction has_definition market_probability_snapshot
    validate_position_action active_positions position_config revision_window_is_closed
    revision_count position_penalty insert_prediction_position probability_floor payout
    reinforcement_count
moved_market_eq = refl

Reach-cancel_market_example :
    Succeeds
      (λ db'. IsCanceled 1 db' × Returns (open_predictions 1 moved) moved.wallet db'.wallet)
      (cancel_market engine election false 30 moved)
Reach-cancel_market_example =
    Reach-cancel_market (some 9) accept accept accept accept accept election false 30 empty-IsNew
      Reach-moved refl moved_market_eq (λ db. refl)

-- The locked market of the settlements.
closed-AreGranted : AreGranted closed.wallet (open_predictions 1 closed)
unfolding open_predictions has_initial_grant
closed-AreGranted = (refl, tt)

closed-AreCovered : AreCovered (open_predictions 1 closed)
unfolding open_predictions
closed-AreCovered = (omega arith, tt)

resolve_market_predictions-Pays_example :
    available_of 5 (resolve_market_predictions engine 1 2 30 closed).wallet
    ≡ available_of 5 closed.wallet +ℤ pos (sum_by (prize 5 2) (open_predictions 1 closed))
resolve_market_predictions-Pays_example =
    resolve_market_predictions-Pays (some 9) accept accept accept accept accept 1 2 30 closed 5
      closed-AreGranted closed-AreCovered
