-- ===== src/Position/Write.antt =====
-- Inserting a prediction, locking its stake and committing to it.
use gotrendlabs.Prelude.{ℕ, suc, ◌*◌, Option, none, some, [], ◌∷◌, ◌++◌, if◌then◌else◌}
use gotrendlabs.Prelude.{Result, ok, err, unsigned_definition, ◌>>=◌}
use gotrendlabs.Prelude.Int.{pos, neg}
use gotrendlabs.Prelude.Table.{lookup, update}
use gotrendlabs.Wallet.{Wallet, Balance, add, lock, prediction_stake_lock, prediction, insert_entry}
use gotrendlabs.Decimal.{payout, probability_floor}
use gotrendlabs.Db.{
  Db, MarketOption, Prediction, PredictionStatus, ActionType, initial, Reputation,
  commit_prediction as commit_prediction_call, with_wallet, call, has_definition,
}
use gotrendlabs.Position.Queries.{next_position_sequence}

-- INITIAL_REPUTATION
abbrev pub initial_reputation : ℕ
initial_reputation = 100

abbrev score_of : Option Reputation → ℕ
score_of none = initial_reputation
score_of (some r) = r.reputation_score

-- The reputation score that weighs a prediction.
unfoldable pub reputation_score_of : ℕ → Db → ℕ
reputation_score_of u db = score_of (lookup u db.reputations)

-- The row that is inserted; the identity column gives the next id.
unfoldable pub new_prediction : ℕ → ℕ → MarketOption → ℕ → ActionType → ℕ → ℕ → Db → Prediction
unfolding reputation_score_of
new_prediction u m option stake action sequence now db =
    let p = probability_floor option.probability_exact in
    record {
      id = suc db.last_prediction_id;
      user_id = u;
      market_id = m;
      market_option_id = option.id;
      action_type = action;
      position_sequence = sequence;
      stake_amount = stake;
      probability_at_entry = p;
      weight_at_entry = reputation_score_of u db * stake;
      potential_payout = payout stake p;
      status = PredictionStatus.opened;
      won = none;
      superseded_by_id = none;
      superseded_at = none;
      created_at = now;
      updated_at = now;
    }

unfoldable pub insert_prediction : Prediction → Db → Db
insert_prediction p db = record db {
  predictions = db.predictions ++ (p.id, p) ∷ [];
  last_prediction_id = p.id;
}

-- `_insert_prediction_position`
unfoldable pub insert_prediction_position :
    ℕ → ℕ → MarketOption → ℕ → ActionType → ℕ → Db → Prediction × Db
unfolding new_prediction insert_prediction
insert_prediction_position u m option stake action now db =
    let p = new_prediction u m option stake action (next_position_sequence u m db) now db in
    (p, insert_prediction p db)

-- `commit_prediction`: the signed commitment needs the market's signed definition.
unfoldable pub commit_prediction : Prediction → Db → Result Db
commit_prediction p db =
    if has_definition p.market_id db
    then ok (call (commit_prediction_call p.id) db)
    else err unsigned_definition

-- The UPDATE of the balance in `create_initial_prediction_with_integrity`.
unfoldable pub lock_stake : ℕ → Balance
lock_stake stake = record {
  available_gtl = neg stake;
  locked_gtl = pos stake;
  total_earned_gtl = pos 0;
}

-- Its INSERT into the ledger and its UPDATE, which bypass `_record_wallet_entry`.
unfoldable pub lock_initial_stake : ℕ → ℕ → ℕ → Wallet → Wallet
unfolding insert_entry lock_stake
lock_initial_stake u stake id w =
    let w' = insert_entry u prediction_stake_lock stake lock (prediction id) none w in
    record w' { balances = update u (add (lock_stake stake)) w'.balances }

-- `create_initial_prediction_with_integrity`
unfoldable pub create_initial_prediction :
    ℕ → ℕ → MarketOption → ℕ → ℕ → Db → Result (Prediction × Db)
unfolding new_prediction insert_prediction lock_initial_stake commit_prediction
create_initial_prediction u m option stake now db = do
  let p = new_prediction u m option stake initial 1 now db
  db' ← commit_prediction p (with_wallet (lock_initial_stake u stake p.id) (insert_prediction p db))
  ok (p, db')
