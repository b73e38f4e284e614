-- ===== src/Position/Admission.antt =====
-- What `create_prediction` has checked when it accepts.
use gotrendlabs.Prelude.{
  ℕ, ◌≡◌, false, true, arith, ok, raise_if, Ensures-bind, ensured, not, market_closed,
  already_positioned, insufficient_balance, raise_if-eq-ok, raise_if-not-eq-ok,
}
use gotrendlabs.Prelude.Int.{ℤ, pos, ltb_ℤ, ◌≤ℤ◌}
use gotrendlabs.Wallet.{wallet_summary}
use gotrendlabs.Db.{Db, Market, MarketOption, Prediction}
use gotrendlabs.Position.Queries.{is_opened}
use gotrendlabs.Position.Validate.{load_market_for_position, load_market_option}
use gotrendlabs.Position.Write.{create_initial_prediction}
use gotrendlabs.Position.Apply.{has_prediction, create_prediction}

-- An admitted first prediction.
pub record Admitted (slug option_id stake u now : ℕ) (db : Db) : Type 0 where
  pub market : Market
  pub option : MarketOption
  pub found : load_market_for_position slug now db ≡ ok market
  pub is_open : is_opened market.status ≡ true
  pub chosen : load_market_option market.id option_id db ≡ ok option
  pub is_first : has_prediction u market.id db ≡ false
  pub covered : pos stake ≤ℤ (wallet_summary u db.wallet).0.available_gtl

covers : (a b : ℤ) → ltb_ℤ a b ≡ false → b ≤ℤ a
covers a b h = ground arith

-- A first prediction is accepted only in a market that counts as open at that moment, on one of its
-- options, from a user without any prediction in that market, and for at most the available balance.
pub create_prediction-eq-ok :
    (slug option_id stake u now : ℕ) (db : Db) {p : Prediction} {db' : Db}
    → create_prediction slug option_id stake u now db ≡ ok (p, db')
    → Admitted slug option_id stake u now db
unfolding create_prediction
create_prediction-eq-ok slug option_id stake u now db =
    ensured (λ (r : Prediction × Db). Admitted slug option_id stake u now db)
      (create_prediction slug option_id stake u now db)
      (Ensures-bind _ (load_market_for_position slug now db) _ λ market loaded.
        Ensures-bind _ (raise_if (not (is_opened market.status)) market_closed) _ λ _ opened.
          Ensures-bind _ (load_market_option market.id option_id db) _ λ option chosen.
            Ensures-bind _ (raise_if (has_prediction u market.id db) already_positioned) _ λ _ new.
              Ensures-bind _
                (raise_if (ltb_ℤ (wallet_summary u db.wallet).0.available_gtl (pos stake))
                  insufficient_balance)
                _
                λ _ enough.
                  Ensures-bind _
                    (create_initial_prediction u market.id option stake now
                      (record db { wallet = (wallet_summary u db.wallet).1 }))
                    _
                    λ r created. record {
                      market = market;
                      option = option;
                      found = loaded;
                      is_open = raise_if-not-eq-ok _ _ opened;
                      chosen = chosen;
                      is_first = raise_if-eq-ok _ _ new;
                      covered =
                          covers (wallet_summary u db.wallet).0.available_gtl (pos stake)
                            (raise_if-eq-ok _ _ enough);
                    })
