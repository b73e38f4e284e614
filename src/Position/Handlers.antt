-- ===== src/Position/Handlers.antt =====
-- The two handlers that take credits, `create_prediction` and `_apply_position_action`, as wholes.
use gotrendlabs.Prelude.{
  ℕ, ◌≡◌, true, ok, raise_if, Ensures, Ensures-bind, ensured, not, market_closed,
  already_positioned, insufficient_balance, arith, ◌∙◌, ap,
}
use gotrendlabs.Prelude.Int.{pos, ltb_ℤ}
use gotrendlabs.Wallet.{ensure_wallet_balance, wallet_summary}
use gotrendlabs.Wallet.Consistency.{
  balance_of-ensure_wallet_balance, ensure_wallet_balance-IsConsistent,
}
use gotrendlabs.Db.{
  Db, Market, MarketOption, Prediction, call, has_definition,
  commit_prediction as commit_prediction_call,
}
use gotrendlabs.Db.Backing.{IsBacked}
use gotrendlabs.Position.Queries.{active_positions, is_opened}
use gotrendlabs.Position.Snapshot.{market_probability_snapshot}
use gotrendlabs.Position.Write.{commit_prediction, create_initial_prediction}
use gotrendlabs.Position.Validate.{
  PositionAction, reinforce, revise, other_action, PositionPayload, Preview,
  load_market_for_position, load_market_option, validate_position_action,
}
use gotrendlabs.Position.Apply.{
  apply_validated, apply_position_action, has_prediction, create_prediction,
}
use gotrendlabs.Position.Accepted.{validate_reinforcement-eq-ok, validate_revision-eq-ok}
use gotrendlabs.Position.Backing.{
  apply_reinforcement-IsBacked, apply_revision-IsBacked, first, first-IsBacked,
}

-- Making the wallet row keeps the invariant.
pub IsBacked-ensure :
    (u : ℕ) (db : Db)
    → IsBacked db
    → IsBacked (record db { wallet = ensure_wallet_balance u db.wallet })
IsBacked-ensure u db h = record {
  backed =
      λ j. ap (λ b. b.locked_gtl) (balance_of-ensure_wallet_balance u j db.wallet) ∙ h.backed j;
  consistent = ensure_wallet_balance-IsConsistent u db.wallet h.consistent;
  keyed = h.keyed;
}

pub IsBacked-snapshot :
    (m : ℕ) (db : Db) → IsBacked db → IsBacked (market_probability_snapshot m db)
unfolding market_probability_snapshot
IsBacked-snapshot m db h = record { backed = h.backed; consistent = h.consistent; keyed = h.keyed }

pub commit_prediction-eq-ok :
    (p : Prediction) (db db' : Db)
    → commit_prediction p db ≡ ok db'
    → (has_definition p.market_id db ≡ true) × (db' ≡ call (commit_prediction_call p.id) db)
unfolding commit_prediction
commit_prediction-eq-ok p db db' e = ground arith

IsBacked-commit :
    (p : Prediction) (db db' : Db) → commit_prediction p db ≡ ok db' → IsBacked db → IsBacked db'
IsBacked-commit p db db' e h =
    rw (commit_prediction-eq-ok p db db' e).1
      (record { backed = h.backed; consistent = h.consistent; keyed = h.keyed })

module _ (u now : ℕ) (market : Market) (option : MarketOption) (stake : ℕ) (db : Db) where
  -- Whatever action was validated, applying it keeps the invariant.
  apply_validated-IsBacked :
      (action : PositionAction) (preview : Preview) (db' : Db)
      → validate_position_action u now market option action stake
          (active_positions u market.id db)
          db
        ≡ ok (preview, db')
      → IsBacked db
      → IsBacked
          (apply_validated u now market option (active_positions u market.id db) preview db').1
  unfolding validate_position_action apply_validated active_positions
  apply_validated-IsBacked reinforce preview db' e h =
      let a =
        validate_reinforcement-eq-ok u market option stake (active_positions u market.id db) db
          (preview, db') e in
      rw (a.action, a.state)
        (apply_reinforcement-IsBacked u now market option preview _ (IsBacked-ensure u db h))
  apply_validated-IsBacked revise preview db' e h =
      let a =
        validate_revision-eq-ok u now market option stake (active_positions u market.id db) db
          (preview, db') e in
      rw (a.action, a.state)
        (apply_revision-IsBacked u now market option preview _ (IsBacked-ensure u db h) a.split)
  apply_validated-IsBacked other_action preview db' e h = cc

-- After an accepted reinforcement or revision, every user's locked balance is the sum of the user's
-- stakes in open predictions, every balance row equals the totals of the ledger, and the prediction
-- ids are unique, if all this held before.
pub apply_position_action-IsBacked :
    (slug : ℕ) (payload : PositionPayload) (u now : ℕ) (db : Db) {p : Prediction}
    {preview : Preview} {db' : Db}
    → IsBacked db
    → apply_position_action slug payload u now db ≡ ok (p, preview, db')
    → IsBacked db'
unfolding apply_position_action
apply_position_action-IsBacked slug payload u now db h =
    ensured (λ r. IsBacked r.2) (apply_position_action slug payload u now db)
      (Ensures-bind _ (load_market_for_position slug now db) _ λ market loaded.
        Ensures-bind _ (load_market_option market.id payload.option_id db) _ λ option chosen.
          Ensures-bind _
            (validate_position_action u now market option payload.action payload.stake_amount
              (active_positions u market.id db) db)
            _
            λ v valid. Ensures-bind _ (commit_prediction _ _) _ λ db3 committed.
              IsBacked-snapshot market.id db3 (
                IsBacked-commit _ _ db3 committed (
                  apply_validated-IsBacked u now market option payload.stake_amount db
                    payload.action v.0 v.1 valid h)))

-- The write of `prediction_write_service.py`, which the API and the internal agents share.
pub create_initial_prediction-IsBacked :
    (u m : ℕ) (option : MarketOption) (stake now : ℕ) (db : Db)
    → IsBacked db
    → Ensures (λ r. IsBacked r.1) (create_initial_prediction u m option stake now db)
unfolding create_initial_prediction
create_initial_prediction-IsBacked u m option stake now db h =
    Ensures-bind _ (commit_prediction (first u m option stake now db) _) _ λ db' committed.
      IsBacked-commit (first u m option stake now db) _ db' committed
        (first-IsBacked u m option stake now db h)

-- After an accepted first prediction, every user's locked balance is the sum of the user's stakes
-- in open predictions, every balance row equals the totals of the ledger, and the prediction ids
-- are unique, if all this held before.
pub create_prediction-IsBacked :
    (slug option_id stake u now : ℕ) (db : Db) {p : Prediction} {db' : Db}
    → IsBacked db
    → create_prediction slug option_id stake u now db ≡ ok (p, db')
    → IsBacked db'
unfolding create_prediction wallet_summary
create_prediction-IsBacked slug option_id stake u now db h =
    let db0 = record db { wallet = ensure_wallet_balance u db.wallet } in
    ensured (λ r. IsBacked r.1) (create_prediction slug option_id stake u now db)
      (Ensures-bind _ (load_market_for_position slug now db) _ λ market loaded.
        Ensures-bind _ (raise_if (not (is_opened market.status)) market_closed) _ λ _ opened.
          Ensures-bind _ (load_market_option market.id option_id db) _ λ option chosen.
            Ensures-bind _ (raise_if (has_prediction u market.id db) already_positioned) _ λ _ new.
              Ensures-bind _
                (raise_if (ltb_ℤ (wallet_summary u db.wallet).0.available_gtl (pos stake))
                  insufficient_balance)
                _
                λ _ covered.
                  Ensures-bind _ (create_initial_prediction u market.id option stake now db0) _
                    λ r created.
                      let kept =
                        ensured (λ x. IsBacked x.1) _
                          (create_initial_prediction-IsBacked u market.id option stake now db0
                            (IsBacked-ensure u db h))
                          created in
                      IsBacked-snapshot market.id _ (record {
                        backed = kept.backed;
                        consistent = kept.consistent;
                        keyed = kept.keyed;
                      }))
