-- ===== src/Refunds/Handlers.antt =====
-- The handlers as wholes keep what is locked equal to what is staked, and all of it refundable.
use gotrendlabs.Position.Bots.{cannot_stake, create_bot_prediction}
use gotrendlabs.Db.Backing.{IsBacked}
use gotrendlabs.Prelude.Table.{lookup}
use gotrendlabs.Prelude.{
  ℕ, ◌≡◌, true, ok, raise_if, Ensures, Ensures-bind, ensured, not, market_closed,
  already_positioned, insufficient_balance, ◌∙◌, ap, refl, ==_refl, false, Option, none, some,
  raise_if-eq-ok, bot_already_predicted_market, insufficient_bot_balance,
}
use gotrendlabs.Prelude.Int.{pos, ltb_ℤ}
use gotrendlabs.Wallet.{ensure_wallet_balance, wallet_summary, Balance}
use gotrendlabs.Wallet.Consistency.{lookup-ensure_wallet_balance}
use gotrendlabs.Db.{Db, Market, MarketOption, Prediction}
use gotrendlabs.Position.Queries.{active_positions, is_opened}
use gotrendlabs.Position.Snapshot.{market_probability_snapshot}
use gotrendlabs.Position.Write.{commit_prediction, create_initial_prediction}
use gotrendlabs.Position.Validate.{
  PositionAction, reinforce, revise, other_action, PositionPayload, Preview,
  load_market_for_position, load_market_option, validate_position_action,
}
use gotrendlabs.Position.Apply.{
  apply_validated, apply_position_action, has_prediction, create_prediction,
}
use gotrendlabs.Position.Accepted.{validate_reinforcement-eq-ok, validate_revision-eq-ok}
use gotrendlabs.Position.Backing.{first}
use gotrendlabs.Position.Handlers.{
  IsBacked-ensure, commit_prediction-eq-ok, apply_position_action-IsBacked,
  create_prediction-IsBacked, create_initial_prediction-IsBacked, IsBacked-snapshot,
}
use gotrendlabs.Lifecycle.Refunding.{is_some, has_row}
use gotrendlabs.Refunds.Entries.{ensure-Spares}
use gotrendlabs.Refunds.Rows.{IsSafe, IsRefundable-same}
use gotrendlabs.Refunds.Markets.{CanRefund}
use gotrendlabs.Refunds.Positions.{
  apply_reinforcement-CanRefund, apply_revision-CanRefund, first-CanRefund,
}

-- A balance row that is made takes none away.
pub IsSafe-ensure :
    (u : ℕ) (db : Db)
    → IsSafe db
    → IsSafe (record db { wallet = ensure_wallet_balance u db.wallet })
IsSafe-ensure u db h = record {
  backed = IsBacked-ensure u db h.backed;
  refundable =
      IsRefundable-same db.last_prediction_id db.wallet (ensure_wallet_balance u db.wallet)
        db.predictions (ensure-Spares db.last_prediction_id _ u db.wallet) h.refundable;
}

CanRefund-snapshot : (m : ℕ) (db : Db) → CanRefund db → CanRefund (market_probability_snapshot m db)
unfolding market_probability_snapshot
CanRefund-snapshot m db h = h

CanRefund-commit :
    (p : Prediction) (db db' : Db) → commit_prediction p db ≡ ok db' → CanRefund db → CanRefund db'
CanRefund-commit p db db' e h = rw (commit_prediction-eq-ok p db db' e).1 h

module _ (u now : ℕ) (market : Market) (option : MarketOption) (stake : ℕ) (db : Db) where
  apply_validated-CanRefund :
      (action : PositionAction) (preview : Preview) (db' : Db)
      → validate_position_action u now market option action stake
          (active_positions u market.id db)
          db
        ≡ ok (preview, db')
      → IsSafe db
      → CanRefund
          (apply_validated u now market option (active_positions u market.id db) preview db').1
  unfolding validate_position_action apply_validated active_positions
  apply_validated-CanRefund reinforce preview db' e h =
      let a =
        validate_reinforcement-eq-ok u market option stake (active_positions u market.id db) db
          (preview, db') e in
      rw (a.action, a.state)
        (apply_reinforcement-CanRefund u now market option preview _ (IsSafe-ensure u db h))
  apply_validated-CanRefund revise preview db' e h =
      let a =
        validate_revision-eq-ok u now market option stake (active_positions u market.id db) db
          (preview, db') e in
      rw (a.action, a.state)
        (apply_revision-CanRefund u now market option preview _ (IsSafe-ensure u db h))
  apply_validated-CanRefund other_action preview db' e h = cc

apply_position_action-CanRefund :
    (slug : ℕ) (payload : PositionPayload) (u now : ℕ) (db : Db)
    → IsSafe db
    → Ensures (λ r. CanRefund r.2) (apply_position_action slug payload u now db)
unfolding apply_position_action
apply_position_action-CanRefund slug payload u now db h =
    Ensures-bind _ (load_market_for_position slug now db) _ λ market loaded.
      Ensures-bind _ (load_market_option market.id payload.option_id db) _ λ option chosen.
        Ensures-bind _
          (validate_position_action u now market option payload.action payload.stake_amount
            (active_positions u market.id db) db)
          _
          λ v valid. Ensures-bind _ (commit_prediction _ _) _ λ db3 committed.
            CanRefund-snapshot market.id db3 (
              CanRefund-commit _ _ db3 committed (
                apply_validated-CanRefund u now market option payload.stake_amount db payload.action
                  v.0 v.1 valid h))

pub apply_position_action-IsSafe :
    (slug : ℕ) (payload : PositionPayload) (u now : ℕ) (db : Db) {p : Prediction}
    {preview : Preview} {db' : Db}
    → IsSafe db
    → apply_position_action slug payload u now db ≡ ok (p, preview, db')
    → IsSafe db'
apply_position_action-IsSafe slug payload u now db h e = record {
  backed = apply_position_action-IsBacked slug payload u now db h.backed e;
  refundable =
      ensured (λ r. CanRefund r.2) _ (apply_position_action-CanRefund slug payload u now db h) e;
}

create_initial_prediction-CanRefund :
    (u m : ℕ) (option : MarketOption) (stake now : ℕ) (db : Db)
    → IsSafe db
    → has_row u db.wallet ≡ true
    → Ensures (λ r. CanRefund r.1) (create_initial_prediction u m option stake now db)
unfolding create_initial_prediction
create_initial_prediction-CanRefund u m option stake now db h row =
    Ensures-bind _ (commit_prediction (first u m option stake now db) _) _ λ db' committed.
      CanRefund-commit (first u m option stake now db) _ db' committed
        (first-CanRefund u m option stake now db h row)

has_row-ensure : (u : ℕ) (db : Db) → has_row u (ensure_wallet_balance u db.wallet) ≡ true
has_row-ensure u db = ap is_some (lookup-ensure_wallet_balance u u db.wallet) ∙ rw (==_refl u) refl

create_prediction-CanRefund :
    (slug option_id stake u now : ℕ) (db : Db)
    → IsSafe db
    → Ensures (λ r. CanRefund r.1) (create_prediction slug option_id stake u now db)
unfolding create_prediction wallet_summary
create_prediction-CanRefund slug option_id stake u now db h =
    let db0 = record db { wallet = ensure_wallet_balance u db.wallet } in
    Ensures-bind _ (load_market_for_position slug now db) _ λ market loaded.
      Ensures-bind _ (raise_if (not (is_opened market.status)) market_closed) _ λ _ opened.
        Ensures-bind _ (load_market_option market.id option_id db) _ λ option chosen.
          Ensures-bind _ (raise_if (has_prediction u market.id db) already_positioned) _ λ _ new.
            Ensures-bind _
              (raise_if (ltb_ℤ (wallet_summary u db.wallet).0.available_gtl (pos stake))
                insufficient_balance)
              _
              λ _ covered.
                Ensures-bind _ (create_initial_prediction u market.id option stake now db0) _
                  λ r created. CanRefund-snapshot market.id _ (
                    ensured (λ x. CanRefund x.1) _
                      (create_initial_prediction-CanRefund u market.id option stake now db0
                        (IsSafe-ensure u db h) (has_row-ensure u db))
                      created)

pub create_prediction-IsSafe :
    (slug option_id stake u now : ℕ) (db : Db) {p : Prediction} {db' : Db}
    → IsSafe db
    → create_prediction slug option_id stake u now db ≡ ok (p, db')
    → IsSafe db'
create_prediction-IsSafe slug option_id stake u now db h e = record {
  backed = create_prediction-IsBacked slug option_id stake u now db h.backed e;
  refundable =
      ensured (λ r. CanRefund r.1) _ (create_prediction-CanRefund slug option_id stake u now db h)
        e;
}

staker_has_row : (stake : ℕ) (o : Option Balance) → cannot_stake stake o ≡ false → is_some o ≡ true
staker_has_row stake none h = cc
staker_has_row stake (some b) h = refl

pub create_bot_prediction-IsSafe :
    (u m : ℕ) (option : MarketOption) (stake now : ℕ) (db : Db)
    → IsSafe db
    → Ensures (λ r. IsSafe r.1) (create_bot_prediction u m option stake now db)
unfolding create_bot_prediction
create_bot_prediction-IsSafe u m option stake now db h =
    Ensures-bind _ (raise_if (has_prediction u m db) bot_already_predicted_market) _ λ _ new.
      Ensures-bind _
        (raise_if (cannot_stake stake (lookup u db.wallet.balances)) insufficient_bot_balance) _
        λ _ covered.
          Ensures-bind _ (create_initial_prediction u m option stake now db) _ λ r created.
            let kept =
              ensured (λ x. IsBacked x.1) _
                (create_initial_prediction-IsBacked u m option stake now db h.backed) created in
            record {
              backed = IsBacked-snapshot m r.1 kept;
              refundable = CanRefund-snapshot m r.1 (
                  ensured (λ x. CanRefund x.1) _
                    (create_initial_prediction-CanRefund u m option stake now db h (
                      staker_has_row stake (lookup u db.wallet.balances)
                        (raise_if-eq-ok _ _ covered)))
                    created);
            }
