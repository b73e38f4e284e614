-- ===== src/Examples/Numbers.antt =====
-- The decimals and the reputation at concrete numbers.
use gotrendlabs.Examples.{started}
use gotrendlabs.Lifecycle.Engine.{ensure_user_core}
use gotrendlabs.Prelude.Table.{lookup, insert_new}
use mathlib.Core.List.{reverse}
use gotrendlabs.Prelude.{◌≡◌, ◌≤◌, ◌+◌, ◌*◌, true, false, List, [], ◌∷◌, arith, some, refl}
use gotrendlabs.Prelude.Lists.{length}
use gotrendlabs.Decimal.{payout, position_penalty, reputation_gain, reputation_cost}
use gotrendlabs.Decimal.Bounds.{stake-le-payout, position_penalty_bounds, reputation_delta_bounds}
use gotrendlabs.Db.{Prediction, Reputation}
use gotrendlabs.Lifecycle.Settlement.{settled}
use gotrendlabs.Lifecycle.Reputation.{replay_score, leading_wins}
use gotrendlabs.Lifecycle.Replay.{apply_each, replay-eq-apply_each, replay_score_bounds}
use gotrendlabs.Examples.Settlements.{stake_of_80, accept, engine}

stake-le-payout_example : 80 ≤ payout 80 333_333
stake-le-payout_example = stake-le-payout 80 333_333 (omega arith) (omega arith)

position_penalty_bounds_example : (1 ≤ position_penalty 100 20) × (position_penalty 100 20 ≤ 100)
position_penalty_bounds_example =
    position_penalty_bounds 100 20 (omega arith) (omega arith) (omega arith)

reputation_delta_bounds_example :
    (reputation_gain 450_000 ≤ 10)
    × (reputation_cost 450_000 ≤ 10)
    × (10 ≤ reputation_gain 450_000 + reputation_cost 450_000)
    × (reputation_gain 450_000 + reputation_cost 450_000 ≤ 11)
reputation_delta_bounds_example = reputation_delta_bounds 450_000

-- A win, a loss and two wins.
abbrev history : List Prediction
history =
    settled true 10 stake_of_80
    ∷ settled false 20 stake_of_80
    ∷ settled true 30 stake_of_80
    ∷ settled true 40 stake_of_80
    ∷ []

abbrev reputation_of_100 : Reputation
reputation_of_100 = record {
  reputation_score = 100;
  resolved_predictions_count = 0;
  accuracy_indicator = 0;
  streak = 0;
}

started_reputation : lookup 5 started.reputations ≡ some reputation_of_100
unfolding lookup ensure_user_core insert_new
started_reputation = refl

replay-eq-apply_each_example :
    (after : Reputation) × (lookup 5 (apply_each engine 5 history started).reputations ≡ some after)
    × (after.reputation_score ≡ replay_score 100 history)
    × (after.streak ≡ leading_wins (reverse history))
replay-eq-apply_each_example =
    replay-eq-apply_each (some 9) accept accept accept accept accept 5 history started
      reputation_of_100 started_reputation refl

replay_score_bounds_example :
    (replay_score 100 history ≤ 100 + 10 * length history)
    × (100 ≤ replay_score 100 history + 10 * length history)
replay_score_bounds_example = replay_score_bounds history 100
