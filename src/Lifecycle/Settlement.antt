-- ===== src/Lifecycle/Settlement.antt =====
-- `_resolve_market_predictions`: every open prediction of the market is paid or charged.
use gotrendlabs.Prelude.{ℕ, ◌-◌, Bool, some, List, [], ◌∷◌, ◌==◌, if◌then◌else◌}
use gotrendlabs.Wallet.{
  Wallet, release, credit, settle, prediction_refund, prediction_payout, prediction_loss,
  prediction,
}
use gotrendlabs.Db.{
  Db, Prediction, PredictionStatus, on_market_resolved, open_predictions, set_prediction,
  with_wallet, call, is_bot,
}
use gotrendlabs.Lifecycle.Engine.{Engine}
use gotrendlabs.Lifecycle.Reputation.{apply_reputation_delta}

-- `max(0, payout_total - stake)`
unfoldable pub payout_net : Prediction → ℕ
payout_net p = p.potential_payout - p.stake_amount

-- The entries of a winner: the stake is released, and a positive net payout is credited.
unfoldable pub pay_winner : Engine → Prediction → Wallet → Wallet
unfolding payout_net
pay_winner e p w =
    let w' =
      e.record_entry p.user_id prediction_refund p.stake_amount release (prediction p.id) e.staff_id
        w in
    if payout_net p == 0
    then w'
    else e.record_entry p.user_id prediction_payout (payout_net p) credit (prediction p.id)
        e.staff_id w'

-- The entry of a loser.
unfoldable pub charge_loser : Engine → Prediction → Wallet → Wallet
charge_loser e p w =
    e.record_entry p.user_id prediction_loss p.stake_amount settle (prediction p.id) e.staff_id w

unfoldable pub settle_wallet : Engine → Bool → Prediction → Wallet → Wallet
unfolding pay_winner charge_loser
settle_wallet e won p w = if won then pay_winner e p w else charge_loser e p w

abbrev pub settled : Bool → ℕ → Prediction → Prediction
settled won now p = record p {
  status = PredictionStatus.resolved;
  won = some won;
  updated_at = now;
}

-- The body of the loop.
unfoldable pub settle_prediction : Engine → ℕ → ℕ → Prediction → Db → Db
unfolding settle_wallet
settle_prediction e winner now p db =
    let won = p.market_option_id == winner in
    let db' = with_wallet (settle_wallet e won p) (set_prediction p.id (settled won now) db) in
    if is_bot p.user_id db'
    then db'
    else apply_reputation_delta e p.user_id p.probability_at_entry won db'

unfoldable pub settle_all : Engine → ℕ → ℕ → List Prediction → Db → Db
unfolding settle_prediction
settle_all e winner now [] db = db
settle_all e winner now (p ∷ ps) db =
    settle_all e winner now ps (settle_prediction e winner now p db)

unfoldable pub resolve_market_predictions : Engine → ℕ → ℕ → ℕ → Db → Db
unfolding settle_all
resolve_market_predictions e m winner now db =
    call (on_market_resolved m) (settle_all e winner now (open_predictions m db) db)
