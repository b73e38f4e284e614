-- ===== src/Lifecycle/Canceling.antt =====
-- The loop of `_refund_market_predictions` with the API's callbacks.
use gotrendlabs.Prelude.{
  ℕ, ◌+◌, ◌≡◌, Bool, true, false, Option, some, List, [], ◌∷◌, arith, refl, Result, ok, Succeeds,
  Succeeds-map, Succeeds-bind, ==_refl,
}
use gotrendlabs.Prelude.Lists.{length, All}
use gotrendlabs.Prelude.Table.{Table, lookup-update, lookup, update}
use gotrendlabs.Wallet.{Wallet, prediction_refund, release, prediction}
use gotrendlabs.Wallet.Consistency.{IsConsistent, record_wallet_entry-IsConsistent}
use gotrendlabs.Db.{
  Db, Market, MarketStatus, Prediction, open_predictions, open_count, set_prediction, call,
  integrity_canceled, admin_cancel,
}
use gotrendlabs.Db.Backing.{IsBacked}
use gotrendlabs.Lifecycle.Engine.{Engine, api_engine}
use gotrendlabs.Lifecycle.Refund.{
  RefundCounts, withdrawn, refund_stake, refund_all, refund_market_predictions,
  assert_no_open_predictions,
}
use gotrendlabs.Lifecycle.Transitions.{
  status_of, set_market, integrity_event, cancel_unresolved, cancel_from, cancel_market,
  canceled_at,
}
use gotrendlabs.Lifecycle.Pending.{AreOther, length-open_rows, IsBacked-write}
use gotrendlabs.Lifecycle.Settling.{api}
use gotrendlabs.Lifecycle.Signing.{Signs, integrity_event-Succeeds}
use gotrendlabs.Lifecycle.Resolving.{
  IsClosing, IsClosing-start, IsClosing-step, open_of, closed_in, closing_moves,
}
use gotrendlabs.Lifecycle.Refunding.{
  IsUnrefunded, refund_stake_own, refund_stake_other, refund_stake-IsUnrefunded, locked_is_enough,
}

-- What the refund of the predictions ps ends with: one refund each and no other.
abbrev pub Refunded : ℕ → Table Market → List Prediction → RefundCounts → RefundCounts × Db → Type 0
Refunded m markets ps c r =
    IsBacked r.1
    × (open_count m r.1.predictions ≡ 0)
    × (r.0.refunds_created ≡ c.refunds_created + length ps)
    × (r.0.refunds_existing ≡ c.refunds_existing)
    × (r.1.markets ≡ markets)

abbrev pub IsRefunded :
    ℕ → Table Market → List Prediction → RefundCounts → Result (RefundCounts × Db) → Type 0
IsRefunded m markets ps c = Succeeds (Refunded m markets ps c)

module _ (staff : Option ℕ) (a b c sign schedule : ℕ → Db → Result (Unit {0})) (m now : ℕ) where
  unfoldable pub refund_one : Prediction → Db → Db
  refund_one p db = record db {
    wallet = refund_stake (api staff a b c sign schedule) p db.wallet;
    predictions = update p.id (withdrawn now) db.predictions;
  }

  pub others-IsUnrefunded :
      (p : Prediction) (ps : List Prediction) (w : Wallet)
      → AreOther p.id ps
      → All (IsUnrefunded w) ps
      → All (IsUnrefunded (refund_stake (api staff a b c sign schedule) p w)) ps
  others-IsUnrefunded p [] w o h = tt
  others-IsUnrefunded p (r ∷ ps) w o h = (
    refund_stake-IsUnrefunded staff a b c sign schedule p r w o.0 h.0,
    others-IsUnrefunded p ps w o.1 h.1,
  )

  refunded-IsConsistent :
      (p : Prediction) (db : Db)
      → IsBacked db
      → IsConsistent (refund_stake (api staff a b c sign schedule) p db.wallet)
  unfolding api_engine refund_stake
  refunded-IsConsistent p db h =
      record_wallet_entry-IsConsistent p.user_id prediction_refund p.stake_amount release
        (prediction p.id) staff db.wallet h.consistent

  pub refund_one-IsClosing :
      (p : Prediction) (ps : List Prediction) (db : Db)
      → IsClosing m (p ∷ ps) db
      → IsClosing m ps (refund_one p db)
  unfolding refund_one
  refund_one-IsClosing p ps db h =
      IsClosing-step m p ps (withdrawn now) db _ (closed_in m (withdrawn now p) refl) refl
        (IsBacked-write p (withdrawn now) _ db (λ q. refl) h.pending.0
          (λ j.
            closing_moves p (withdrawn now p) db.wallet _ j (open_of m p h.pending.1) refl
              (λ same. (refund_stake_own staff a b c sign schedule j p db.wallet same).0)
              (refund_stake_other staff a b c sign schedule j p db.wallet))
          (refunded-IsConsistent p db h.safe) h.safe)
        h

  refund_all-IsRefunded :
      (ps : List Prediction) (counts : RefundCounts) (db : Db)
      → IsClosing m ps db
      → All (IsUnrefunded db.wallet) ps
      → IsRefunded m db.markets ps counts
          (refund_all (api staff a b c sign schedule) now ps counts db)
  unfolding refund_all refund_one set_prediction
  refund_all-IsRefunded [] counts db h un = (h.safe, h.remaining, omega arith, refl, refl)
  refund_all-IsRefunded (p ∷ ps) counts db h un =
      let rest =
        refund_all-IsRefunded ps (record counts { refunds_created = counts.refunds_created + 1 })
          (refund_one p db) (refund_one-IsClosing p ps db h)
          (others-IsUnrefunded p ps db.wallet h.pending.2 un.1) in
      rw (un.0.1, locked_is_enough p db h.safe h.pending.0 (open_of m p h.pending.1) un.0.0)
        (Succeeds-map
          (Refunded m db.markets ps
            (record counts { refunds_created = counts.refunds_created + 1 }))
          (Refunded m db.markets (p ∷ ps) counts) _
          (λ r h. (h.0, h.1, omega (arith, h.2), h.3, h.4)) rest)

  -- Refunding a market, with the API's callbacks, never fails when the users of its open
  -- predictions have balance rows, no refund of those predictions was recorded after their last
  -- lock, and every user's locked balance is the sum of the user's stakes in open predictions,
  -- every balance row equals the totals of the ledger, and the prediction ids are unique: it
  -- refunds every open prediction of the market once, leaves none open, and all that about balances
  -- and ids holds again.
  pub refund_market_predictions-IsRefunded :
      (db : Db)
      → IsBacked db
      → All (IsUnrefunded db.wallet) (open_predictions m db)
      → IsRefunded m db.markets
          (open_predictions m db)
          (record { refunds_created = 0; refunds_existing = 0 })
          (refund_market_predictions (api staff a b c sign schedule) m now db)
  unfolding refund_market_predictions
  refund_market_predictions-IsRefunded db h un =
      refund_all-IsRefunded (open_predictions m db) _ db (IsClosing-start m db h) un

  -- No prediction is left open, so the check after the refunds lets the cancellation through.
  assert_no_open_predictions-eq-ok :
      (db : Db) → open_count m db.predictions ≡ 0 → assert_no_open_predictions m db ≡ ok tt
  unfolding assert_no_open_predictions open_predictions
  assert_no_open_predictions-eq-ok db none_open =
      rw (length-open_rows m db.predictions, none_open) refl

-- The statuses from which no refund starts.
abbrev pub is_final : MarketStatus → Bool
is_final MarketStatus.resolved = true
is_final MarketStatus.sealed = true
is_final MarketStatus.canceled = true
is_final _ = false

pub cancel_from-eq-cancel_unresolved :
    (e : Engine) (row : Market) (has_note : Bool) (now : ℕ) (db : Db) (s : MarketStatus)
    → is_final s ≡ false
    → cancel_from s e row has_note now db ≡ cancel_unresolved e row now db
unfolding cancel_from
cancel_from-eq-cancel_unresolved e row has_note now db MarketStatus.draft f = refl
cancel_from-eq-cancel_unresolved e row has_note now db MarketStatus.scheduled f = refl
cancel_from-eq-cancel_unresolved e row has_note now db MarketStatus.opened f = refl
cancel_from-eq-cancel_unresolved e row has_note now db MarketStatus.locked f = refl
cancel_from-eq-cancel_unresolved e row has_note now db MarketStatus.resolved f = cc
cancel_from-eq-cancel_unresolved e row has_note now db MarketStatus.sealed f = cc
cancel_from-eq-cancel_unresolved e row has_note now db MarketStatus.canceled f = cc

-- The market is canceled, and nothing in it is open.
abbrev pub IsCanceled : ℕ → Db → Type 0
IsCanceled m db =
    IsBacked db × (open_count m db.predictions ≡ 0) × (status_of m db ≡ some MarketStatus.canceled)

module _ (staff : Option ℕ) (a b c sign schedule : ℕ → Db → Result (Unit {0})) (row : Market)
    (now : ℕ) (db : Db) where
  cancellation-IsCanceled :
      (db' : Db)
      → lookup row.id db'.markets ≡ some row
      → IsBacked db'
      → open_count row.id db'.predictions ≡ 0
      → Signs sign row.id
      → Succeeds (IsCanceled row.id) (
          integrity_event
            (api staff a b c sign schedule)
            row.id
            (integrity_canceled row.id)
            (call (admin_cancel row.id) (set_market row.id (canceled_at staff now) db')))
  unfolding set_market api_engine
  cancellation-IsCanceled db' e h n signs =
      let done : status_of row.id (set_market row.id (canceled_at staff now) db')
          ≡ some MarketStatus.canceled =
        rw (lookup-update row.id row.id (canceled_at staff now) db'.markets, ==_refl row.id, e)
          refl in
      integrity_event-Succeeds (api staff a b c sign schedule) row.id _ _ (IsCanceled row.id) signs
        (record { backed = h.backed; consistent = h.consistent; keyed = h.keyed }, n, done)
        (record { backed = h.backed; consistent = h.consistent; keyed = h.keyed }, n, done)

  pub cancel_unresolved-IsCanceled :
      IsBacked db
      → All (IsUnrefunded db.wallet) (open_predictions row.id db)
      → lookup row.id db.markets ≡ some row
      → Signs sign row.id
      → Succeeds (IsCanceled row.id) (cancel_unresolved (api staff a b c sign schedule) row now db)
  unfolding cancel_unresolved api_engine
  cancel_unresolved-IsCanceled h un e signs =
      Succeeds-bind (Refunded row.id db.markets (open_predictions row.id db) _) (IsCanceled row.id)
        (refund_market_predictions (api staff a b c sign schedule) row.id now db) _
        (refund_market_predictions-IsRefunded staff a b c sign schedule row.id now db h un)
        λ r k.
          Succeeds-bind (λ _. Unit {0}) (IsCanceled row.id) (assert_no_open_predictions row.id r.1)
            _
            (rw (assert_no_open_predictions-eq-ok staff a b c sign schedule row.id now r.1 k.1) tt)
            λ _ _. cancellation-IsCanceled r.1 (rw k.4 e) k.0 k.1 signs

  -- Canceling a market of the table that is neither resolved, sealed nor canceled succeeds, when
  -- the signature of its event is not refused, the users of its open predictions have balance rows,
  -- no refund of those predictions was recorded after their last lock, and every user's locked
  -- balance is the sum of the user's stakes in open predictions, every balance row equals the
  -- totals of the ledger, and the prediction ids are unique: then the market ends canceled with no
  -- open prediction, and all that about balances and ids holds again.
  pub cancel_market-IsCanceled :
      (has_note : Bool)
      → is_final row.status ≡ false
      → IsBacked db
      → All (IsUnrefunded db.wallet) (open_predictions row.id db)
      → lookup row.id db.markets ≡ some row
      → Signs sign row.id
      → Succeeds
          (IsCanceled row.id)
          (cancel_market (api staff a b c sign schedule) row has_note now db)
  unfolding cancel_market
  cancel_market-IsCanceled has_note f h un e signs =
      rw
        (cancel_from-eq-cancel_unresolved (api staff a b c sign schedule) row has_note now db
          row.status f)
        (cancel_unresolved-IsCanceled h un e signs)
