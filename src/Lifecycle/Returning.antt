-- ===== src/Lifecycle/Returning.antt =====
-- What the refunds of a canceled market return to each user, with the API's callbacks.
use gotrendlabs.Prelude.{
  ℕ, ◌≡◌, Bool, false, Option, List, [], ◌∷◌, ◌==◌, if◌then◌else◌, inl, inr, Bool-cases, sym, ap,
  ◌∙◌, Result, Ensures, Ensures-if, Ensures-map, Ensures-bind, ensured, ◌+◌,
}
use gotrendlabs.Prelude.Int.{pos, ◌+ℤ◌, int_laws, parts_of_eq, +ℤ_zero}
use gotrendlabs.Prelude.Lists.{All, sum_by}
use gotrendlabs.Prelude.Table.{lookup}
use gotrendlabs.Wallet.{Wallet, release, prediction_refund, prediction}
use gotrendlabs.Wallet.Effects.{available_of, available-record_other}
use gotrendlabs.Db.{Db, Market, Prediction, open_predictions, set_prediction}
use gotrendlabs.Db.Backing.{IsBacked}
use gotrendlabs.Lifecycle.Engine.{api_engine}
use gotrendlabs.Lifecycle.Refund.{
  RefundCounts, refund_stake, refund_all, refund_market_predictions, has_refund, locked_is_short,
  assert_no_open_predictions,
}
use gotrendlabs.Lifecycle.Refunding.{IsUnrefunded, refund_stake_own}
use gotrendlabs.Lifecycle.Settling.{api}
use gotrendlabs.Lifecycle.Signing.{integrity_event-Ensures}
use gotrendlabs.Lifecycle.Resolving.{IsClosing, IsClosing-start}
use gotrendlabs.Lifecycle.Canceling.{
  refund_one, refund_one-IsClosing, others-IsUnrefunded, is_final, cancel_from-eq-cancel_unresolved,
}
use gotrendlabs.Lifecycle.Transitions.{set_market, cancel_unresolved, cancel_market}

-- What the user j has in a prediction.
abbrev pub stake_of : ℕ → Prediction → ℕ
stake_of j p = if p.user_id == j then p.stake_amount else 0

-- The user's stakes in the listed rows are available again.
abbrev pub Returns : List Prediction → Wallet → Wallet → Type 0
Returns ps w w' = (j : ℕ) → available_of j w' ≡ available_of j w +ℤ pos (sum_by (stake_of j) ps)

module _ (staff : Option ℕ) (a b c sign schedule : ℕ → Db → Result (Unit {0})) where
  refund_stake-returns :
      (j : ℕ) (p : Prediction) (w : Wallet)
      → available_of j (refund_stake (api staff a b c sign schedule) p w)
        ≡ available_of j w +ℤ pos (stake_of j p)
  unfolding api_engine refund_stake
  refund_stake-returns j p w = elim (Bool-cases (p.user_id == j)) [
    | inl same ↦
        (refund_stake_own staff a b c sign schedule j p w same).1
        ∙ ap (λ b. available_of j w +ℤ pos (if b then p.stake_amount else 0)) (sym same)
    | inr other ↦
        available-record_other p.user_id j prediction_refund p.stake_amount release
          (prediction p.id) staff w other
        ∙ sym (+ℤ_zero (available_of j w))
        ∙ ap (λ b. available_of j w +ℤ pos (if b then p.stake_amount else 0)) (sym other)
  ]

  module _ (m now : ℕ) where
    refund_all-Returns :
        (ps : List Prediction) (counts : RefundCounts) (db : Db)
        → IsClosing m ps db
        → All (IsUnrefunded db.wallet) ps
        → Ensures
            (λ r. Returns ps db.wallet r.1.wallet)
            (refund_all (api staff a b c sign schedule) now ps counts db)
    unfolding refund_all refund_one set_prediction
    refund_all-Returns [] counts db h un = λ j. sym (+ℤ_zero (available_of j db.wallet))
    refund_all-Returns (p ∷ ps) counts db h un =
        let rest =
          refund_all-Returns ps (record counts { refunds_created = counts.refunds_created + 1 })
            (refund_one staff a b c sign schedule m now p db)
            (refund_one-IsClosing staff a b c sign schedule m now p ps db h)
            (others-IsUnrefunded staff a b c sign schedule m now p ps db.wallet h.pending.2 un.1) in
        Ensures-if (λ (r : RefundCounts × Db). Returns (p ∷ ps) db.wallet r.1.wallet)
          (has_refund p.id db.wallet.ledger) _ _ (λ refunded. cc (refunded, un.0.1))
          λ unrefunded.
            Ensures-if (λ (r : RefundCounts × Db). Returns (p ∷ ps) db.wallet r.1.wallet)
              (locked_is_short p.stake_amount (lookup p.user_id db.wallet.balances)) _ _
              (λ short. tt)
              λ enough.
                Ensures-map
                  (λ (r : RefundCounts × Db).
                    Returns ps (refund_one staff a b c sign schedule m now p db).wallet r.1.wallet)
                  (λ (r : RefundCounts × Db). Returns (p ∷ ps) db.wallet r.1.wallet) _
                  (λ r e j.
                    omega (
                      int_laws,
                      parts_of_eq (e j),
                      parts_of_eq (refund_stake-returns j p db.wallet),
                    ))
                  rest

    pub refund_market_predictions-Returns :
        (db : Db)
        → IsBacked db
        → All (IsUnrefunded db.wallet) (open_predictions m db)
        → Ensures
            (λ r. Returns (open_predictions m db) db.wallet r.1.wallet)
            (refund_market_predictions (api staff a b c sign schedule) m now db)
    unfolding refund_market_predictions
    refund_market_predictions-Returns db h un =
        refund_all-Returns (open_predictions m db) _ db (IsClosing-start m db h) un

module _ (staff : Option ℕ) (a b c sign schedule : ℕ → Db → Result (Unit {0})) (row : Market)
    (now : ℕ) (db : Db) (h : IsBacked db)
    (un : All (IsUnrefunded db.wallet) (open_predictions row.id db)) where
  -- After a cancellation the stakes are available again, each with its user.
  abbrev pub IsReturned : Db → Type 0
  IsReturned db' = Returns (open_predictions row.id db) db.wallet db'.wallet

  cancel_unresolved-IsReturned :
      Ensures IsReturned (cancel_unresolved (api staff a b c sign schedule) row now db)
  unfolding cancel_unresolved set_market
  cancel_unresolved-IsReturned =
      Ensures-bind _ (refund_market_predictions (api staff a b c sign schedule) row.id now db) _
        λ r refunded. Ensures-bind _ (assert_no_open_predictions row.id r.1) _ λ y none_open.
          let returned =
            ensured
              (λ (x : RefundCounts × Db). Returns (open_predictions row.id db) db.wallet x.1.wallet)
              _ (refund_market_predictions-Returns staff a b c sign schedule row.id now db h un)
              refunded in
          integrity_event-Ensures (api staff a b c sign schedule) row.id _ _ IsReturned returned
            returned

  pub cancel_market-IsReturned :
      (has_note : Bool)
      → is_final row.status ≡ false
      → Ensures IsReturned (cancel_market (api staff a b c sign schedule) row has_note now db)
  unfolding cancel_market
  cancel_market-IsReturned has_note f =
      rw
        (cancel_from-eq-cancel_unresolved (api staff a b c sign schedule) row has_note now db
          row.status f)
        cancel_unresolved-IsReturned
