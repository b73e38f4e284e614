-- ===== src/Lifecycle/Refund.antt =====
-- `_refund_market_predictions` and `_assert_no_open_predictions`.
use gotrendlabs.Prelude.{
  ℕ, ◌+◌, max, Bool, true, false, Option, none, some, List, [], ◌∷◌, ◌==◌, ltb, ◌&&◌, if◌then◌else◌,
  Result, ok, err, refund_insufficient_locked, open_predictions_remain,
}
use gotrendlabs.Prelude.Int.{pos, ltb_ℤ}
use gotrendlabs.Prelude.Lists.{any, length}
use gotrendlabs.Prelude.Table.{lookup}
use gotrendlabs.Wallet.{
  Wallet, Balance, LedgerEntry, Direction, lock, release, EntryType, prediction_refund, Reference,
  prediction,
}
use gotrendlabs.Db.{Db, Prediction, PredictionStatus, open_predictions, set_prediction, with_wallet}
use gotrendlabs.Lifecycle.Engine.{Engine}

-- WHERE reference_type = 'prediction' AND reference_id = id
abbrev pub refers_to : ℕ → Reference → Bool
refers_to id (prediction k) = k == id
refers_to id _ = false

abbrev pub is_lock : Direction → Bool
is_lock lock = true
is_lock _ = false

abbrev pub is_release : Direction → Bool
is_release release = true
is_release _ = false

abbrev pub is_prediction_refund : EntryType → Bool
is_prediction_refund prediction_refund = true
is_prediction_refund _ = false

-- `COALESCE(MAX(id), 0)` over the lock entries of the prediction.
unfoldable pub last_lock : ℕ → List LedgerEntry → ℕ
last_lock id [] = 0
last_lock id (e ∷ es) =
    if refers_to id e.reference && is_lock e.direction
    then max e.id (last_lock id es)
    else last_lock id es

abbrev pub is_refund_after : ℕ → ℕ → LedgerEntry → Bool
is_refund_after id after e =
    refers_to id e.reference
    && is_prediction_refund e.entry_type
    && is_release e.direction
    && ltb after e.id

-- Whether a refund of the prediction was recorded after its last lock.
unfoldable pub has_refund : ℕ → List LedgerEntry → Bool
unfolding last_lock
has_refund id ledger = any (is_refund_after id (last_lock id ledger)) ledger

abbrev pub withdrawn : ℕ → Prediction → Prediction
withdrawn now p = record p { status = PredictionStatus.canceled; won = none; updated_at = now }

-- `balance is None or locked_gtl < stake_amount`
unfoldable pub locked_is_short : ℕ → Option Balance → Bool
locked_is_short stake none = true
locked_is_short stake (some b) = ltb_ℤ b.locked_gtl (pos stake)

pub record RefundCounts : Type 0 where
  pub refunds_created : ℕ
  pub refunds_existing : ℕ

unfoldable pub refund_stake : Engine → Prediction → Wallet → Wallet
refund_stake e p w =
    e.record_entry p.user_id prediction_refund p.stake_amount release (prediction p.id) e.staff_id w

-- The loop over the open predictions.
unfoldable pub refund_all :
    Engine → ℕ → List Prediction → RefundCounts → Db → Result (RefundCounts × Db)
unfolding has_refund locked_is_short refund_stake
refund_all e now [] c db = ok (c, db)
refund_all e now (p ∷ ps) c db =
    let db' = set_prediction p.id (withdrawn now) db in
    let skip = refund_all e now ps (record c { refunds_existing = c.refunds_existing + 1 }) db' in
    let pay =
      refund_all e now ps (record c { refunds_created = c.refunds_created + 1 })
        (with_wallet (refund_stake e p) db') in
    if has_refund p.id db'.wallet.ledger
    then skip
    else if locked_is_short p.stake_amount (lookup p.user_id db'.wallet.balances)
    then err refund_insufficient_locked
    else pay

-- `_refund_market_predictions`, which `reconcile_canceled_market_refunds` also is.
unfoldable pub refund_market_predictions : Engine → ℕ → ℕ → Db → Result (RefundCounts × Db)
unfolding refund_all
refund_market_predictions e m now db =
    refund_all e now (open_predictions m db) (record { refunds_created = 0; refunds_existing = 0 })
      db

-- `_assert_no_open_predictions`
unfoldable pub assert_no_open_predictions : ℕ → Db → Result (Unit {0})
assert_no_open_predictions m db =
    if length (open_predictions m db) == 0 then ok tt else err open_predictions_remain
