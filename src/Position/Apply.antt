-- ===== src/Position/Apply.antt =====
-- `_apply_position_action` and `create_prediction`.
use gotrendlabs.Prelude.{
  ℕ, Bool, not, none, some, List, [], ◌∷◌, ◌==◌, ◌&&◌, if◌then◌else◌, Result, ok, raise_if, ◌>>=◌,
  ◌>>◌, market_closed, already_positioned, insufficient_balance,
}
use gotrendlabs.Prelude.Int.{pos, ltb_ℤ}
use gotrendlabs.Prelude.Lists.{any}
use gotrendlabs.Prelude.Table.{Table}
use gotrendlabs.Wallet.{
  Wallet, release, debit, lock, prediction_refund, prediction_stake_lock,
  prediction_revision_penalty, prediction, record_wallet_entry, wallet_summary,
}
use gotrendlabs.Db.{
  Db, Market, MarketOption, Prediction, PredictionStatus, reinforcement, revision, rows, is_of,
  is_open, with_wallet, call, notify_participants,
}
use gotrendlabs.Position.Queries.{active_positions, is_opened}
use gotrendlabs.Position.Snapshot.{market_probability_snapshot}
use gotrendlabs.Position.Write.{
  insert_prediction_position, commit_prediction, create_initial_prediction,
}
use gotrendlabs.Position.Validate.{
  reinforce, revise, other_action, PositionPayload, Preview, load_market_for_position,
  load_market_option, validate_position_action,
}

-- The loop that releases every superseded stake.
unfoldable pub release_stakes : ℕ → List Prediction → Wallet → Wallet
release_stakes u [] w = w
release_stakes u (p ∷ ps) w =
    release_stakes u ps
      (record_wallet_entry u prediction_refund p.stake_amount release (prediction p.id) none w)

abbrev pub superseded : ℕ → ℕ → Prediction → Prediction
superseded new_id now p = record p {
  status = PredictionStatus.revised;
  superseded_by_id = some new_id;
  superseded_at = some now;
  updated_at = now;
}

-- UPDATE … WHERE user_id, market_id, status = 'open' AND id <> new_id
unfoldable pub supersede : ℕ → ℕ → ℕ → ℕ → Table Prediction → Table Prediction
supersede u m new_id now [] = []
supersede u m new_id now ((k, p) ∷ t) =
    (
      k,
      if is_of u m p && is_open p.status && not (p.id == new_id)
          then superseded new_id now p
          else p,
    )
    ∷ supersede u m new_id now t

unfoldable pub charge_penalty : ℕ → ℕ → ℕ → Wallet → Wallet
charge_penalty u penalty id w =
    if penalty == 0
    then w
    else record_wallet_entry u prediction_revision_penalty penalty debit (prediction id) none w

unfoldable pub lock_position_stake : ℕ → ℕ → ℕ → Wallet → Wallet
lock_position_stake u stake id w =
    record_wallet_entry u prediction_stake_lock stake lock (prediction id) none w

-- The revision branch, after validation.
unfoldable pub apply_revision :
    ℕ → ℕ → Market → MarketOption → List Prediction → Preview → Db → Prediction × Db
unfolding release_stakes supersede charge_penalty lock_position_stake
apply_revision u now market option active preview db =
    let (p, db1) =
      insert_prediction_position u market.id option preview.new_position_stake_amount revision now
        db in
    let db2 = with_wallet (release_stakes u active) db1 in
    let db3 = record db2 { predictions = supersede u market.id p.id now db2.predictions } in
    (
      p,
      with_wallet
          (λ w.
            lock_position_stake u preview.new_position_stake_amount p.id
              (charge_penalty u preview.penalty_amount p.id w))
          db3,
    )

-- The reinforcement branch.
unfoldable pub apply_reinforcement : ℕ → ℕ → Market → MarketOption → Preview → Db → Prediction × Db
unfolding lock_position_stake
apply_reinforcement u now market option preview db =
    let (p, db1) =
      insert_prediction_position u market.id option preview.stake_amount reinforcement now db in
    (p, with_wallet (lock_position_stake u preview.stake_amount p.id) db1)

unfoldable pub apply_validated :
    ℕ → ℕ → Market → MarketOption → List Prediction → Preview → Db → Prediction × Db
unfolding apply_revision apply_reinforcement
apply_validated u now market option active preview db = elim preview.action [
  | revise ↦ apply_revision u now market option active preview db
  | reinforce ↦ apply_reinforcement u now market option preview db
  | other_action ↦ apply_reinforcement u now market option preview db
]

-- `_apply_position_action`: the new prediction, what was previewed, and the state.
unfoldable pub apply_position_action :
    ℕ → PositionPayload → ℕ → ℕ → Db → Result (Prediction × Preview × Db)
unfolding apply_validated
apply_position_action slug payload u now db = do
  market ← load_market_for_position slug now db
  option ← load_market_option market.id payload.option_id db
  let active = active_positions u market.id db
  (preview, db1) ←
      validate_position_action u now market option payload.action payload.stake_amount active db
  let (p, db2) = apply_validated u now market option active preview db1
  db3 ← commit_prediction p db2
  ok (p, preview, market_probability_snapshot market.id db3)

abbrev pub has_prediction : ℕ → ℕ → Db → Bool
has_prediction u m db = any (is_of u m) (rows db.predictions)

-- `create_prediction`, for a signed-in user with a confirmed email address.
unfoldable pub create_prediction : ℕ → ℕ → ℕ → ℕ → ℕ → Db → Result (Prediction × Db)
create_prediction slug option_id stake u now db = do
  market ← load_market_for_position slug now db
  raise_if (not (is_opened market.status)) market_closed
  option ← load_market_option market.id option_id db
  raise_if (has_prediction u market.id db) already_positioned
  let (balance, w) = wallet_summary u db.wallet
  raise_if (ltb_ℤ balance.available_gtl (pos stake)) insufficient_balance
  (p, db1) ← create_initial_prediction u market.id option stake now (record db { wallet = w })
  ok (p, market_probability_snapshot market.id (call (notify_participants p.id) db1))
