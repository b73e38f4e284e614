-- ===== src/Lifecycle/Undo.antt =====
-- `_undo_resolved_market_predictions`
use gotrendlabs.Prelude.{ℕ, ◌+◌, Bool, true, false, none, List, [], ◌∷◌, ◌==◌, ◌&&◌, if◌then◌else◌}
use gotrendlabs.Prelude.Lists.{any}
use gotrendlabs.Wallet.{
  Wallet, LedgerEntry, Direction, lock, debit, credit, EntryType, prediction_refund,
  prediction_payout, prediction_payout_reversal, prediction_resolution_relock, prediction,
}
use gotrendlabs.Db.{
  Db, Prediction, PredictionStatus, resolved_predictions, set_prediction, with_wallet,
}
use gotrendlabs.Lifecycle.Engine.{Engine}
use gotrendlabs.Lifecycle.Reputation.{is_won, recalculate_user_reputation}
use gotrendlabs.Lifecycle.Refund.{refers_to}

abbrev pub is_credit : Direction → Bool
is_credit credit = true
is_credit _ = false

abbrev pub is_prediction_payout : EntryType → Bool
is_prediction_payout prediction_payout = true
is_prediction_payout _ = false

abbrev pub is_payout_of : ℕ → LedgerEntry → Bool
is_payout_of id e =
    refers_to id e.reference && is_prediction_payout e.entry_type && is_credit e.direction

-- `payout_amount`: the sum of all payouts ever credited for the prediction.
unfoldable pub payouts_of : ℕ → List LedgerEntry → ℕ
payouts_of id [] = 0
payouts_of id (e ∷ es) = if is_payout_of id e then e.amount + payouts_of id es else payouts_of id es

unfoldable pub relock : Engine → Prediction → Wallet → Wallet
relock e p w =
    e.record_entry p.user_id prediction_resolution_relock p.stake_amount lock (prediction p.id)
      e.staff_id w

-- The payout is taken back and the stake is locked again.
unfoldable pub undo_win : Engine → Prediction → Wallet → Wallet
unfolding payouts_of relock
undo_win e p w =
    let paid = payouts_of p.id w.ledger in
    relock e p (
      if paid == 0
      then w
      else e.record_entry p.user_id prediction_payout_reversal paid debit (prediction p.id)
          e.staff_id w)

-- The lost stake is credited and locked again.
unfoldable pub undo_loss : Engine → Prediction → Wallet → Wallet
unfolding relock
undo_loss e p w = relock e p (
    e.record_entry p.user_id prediction_refund p.stake_amount credit (prediction p.id) e.staff_id w)

unfoldable pub undo_wallet : Engine → Prediction → Wallet → Wallet
unfolding undo_win undo_loss
undo_wallet e p w = if is_won p.won then undo_win e p w else undo_loss e p w

abbrev pub reopened : ℕ → Prediction → Prediction
reopened now p = record p { status = PredictionStatus.opened; won = none; updated_at = now }

-- The body of the loop.
unfoldable pub undo_prediction : Engine → ℕ → Prediction → Db → Db
unfolding undo_wallet
undo_prediction e now p db = set_prediction p.id (reopened now) (with_wallet (undo_wallet e p) db)

unfoldable pub undo_all : Engine → ℕ → List Prediction → Db → Db
unfolding undo_prediction
undo_all e now [] db = db
undo_all e now (p ∷ ps) db = undo_all e now ps (undo_prediction e now p db)

-- `affected_user_ids`: each user once.
unfoldable pub affected_users : List Prediction → List ℕ
affected_users [] = []
affected_users (p ∷ ps) =
    let rest = affected_users ps in
    if any (λ u. u == p.user_id) rest then rest else p.user_id ∷ rest

unfoldable pub recalculate_all : Engine → List ℕ → Db → Db
recalculate_all e [] db = db
recalculate_all e (u ∷ us) db = recalculate_all e us (recalculate_user_reputation e u db)

unfoldable pub undo_resolved_market_predictions : Engine → ℕ → ℕ → Db → Db
unfolding undo_all affected_users recalculate_all
undo_resolved_market_predictions e m now db =
    let ps = resolved_predictions m db in
    recalculate_all e (affected_users ps) (undo_all e now ps db)
