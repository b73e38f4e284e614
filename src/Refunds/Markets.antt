-- ===== src/Refunds/Markets.antt =====
-- The loops of the engine, with the API's callbacks, leave every open prediction refundable.
use gotrendlabs.Prelude.{
  ℕ, ◌≤◌, Bool, Option, List, [], ◌∷◌, ◌==◌, if_either, refl, Result, Ensures, Ensures-if,
}
use gotrendlabs.Prelude.Table.{lookup, update}
use gotrendlabs.Db.{Db, Prediction, open_predictions, resolved_predictions, set_prediction, is_bot}
use gotrendlabs.Db.Backing.{IsBacked, IsKeyed}
use gotrendlabs.Db.Stakes.{IsKeyed-update}
use gotrendlabs.Lifecycle.Engine.{api_engine}
use gotrendlabs.Lifecycle.Reputation.{
  apply_reputation_delta, write_reputation, recalculate_user_reputation,
}
use gotrendlabs.Lifecycle.Settlement.{
  settle_wallet, settled, settle_prediction, settle_all, resolve_market_predictions,
}
use gotrendlabs.Lifecycle.Refund.{
  RefundCounts, withdrawn, refund_all, refund_market_predictions, has_refund, locked_is_short,
}
use gotrendlabs.Lifecycle.Undo.{
  reopened, undo_prediction, undo_all, affected_users, recalculate_all, undo_wallet,
  undo_resolved_market_predictions,
}
use gotrendlabs.Lifecycle.Pending.{IsPending, select-IsPending, IsPending-update, is_open_in}
use gotrendlabs.Lifecycle.Settling.{api, KeepsStakes, ensure_user_core-KeepsStakes}
use gotrendlabs.Lifecycle.Resolving.{IsClosing, IsClosing-start, settle_prediction-IsClosing}
use gotrendlabs.Lifecycle.Reopening.{IsReopening, undo_prediction-IsReopening, is_resolved_in}
use gotrendlabs.Refunds.Entries.{Spares, Spares-refl}
use gotrendlabs.Refunds.Rows.{
  IsRefundable, IsRefundable-same, IsRefundable-close, IsRefundable-reopen, lookup-IsKeyed,
}
use gotrendlabs.Refunds.Wallets.{
  ensure_user_core-Spares, refund_stake-Spares, settle_wallet-Spares, undo_wallet-relocks,
}

-- The open predictions of a state can be refunded.
abbrev pub CanRefund : Db → Type 0
CanRefund db = IsRefundable db.last_prediction_id db.wallet db.predictions

pub CanRefund-same :
    (db db' : Db)
    → KeepsStakes db db'
    → Spares db.last_prediction_id (λ k. Unit {0}) db.wallet db'.wallet
    → CanRefund db
    → CanRefund db'
CanRefund-same db db' k s h =
    rw (k.last_prediction_id, k.predictions)
      (IsRefundable-same db.last_prediction_id db.wallet db'.wallet db.predictions s h)

-- The id of a listed row was given out.
pending_within :
    (test : Prediction → Bool) (p : Prediction) (ps : List Prediction) (db : Db)
    → IsKeyed db.last_prediction_id db.predictions
    → IsPending test db.predictions (p ∷ ps)
    → p.id ≤ db.last_prediction_id
pending_within test p ps db keyed pending =
    (lookup-IsKeyed db.last_prediction_id p.id p db.predictions keyed pending.0).1

module _ (staff : Option ℕ) (a b c sign schedule : ℕ → Db → Result (Unit {0})) where
  apply_delta-CanRefund :
      (u p : ℕ) (won : Bool) (db : Db)
      → CanRefund db
      → CanRefund (apply_reputation_delta (api staff a b c sign schedule) u p won db)
  unfolding api_engine apply_reputation_delta write_reputation
  apply_delta-CanRefund u p won db h =
      CanRefund-same db _ (ensure_user_core-KeepsStakes u db)
        (ensure_user_core-Spares db.last_prediction_id u db) h

  recalculate-CanRefund :
      (u : ℕ) (db : Db)
      → CanRefund db
      → CanRefund (recalculate_user_reputation (api staff a b c sign schedule) u db)
  unfolding api_engine recalculate_user_reputation write_reputation
  recalculate-CanRefund u db h =
      CanRefund-same db _ (ensure_user_core-KeepsStakes u db)
        (ensure_user_core-Spares db.last_prediction_id u db) h

  recalculate_all-CanRefund :
      (us : List ℕ) (db : Db)
      → CanRefund db
      → CanRefund (recalculate_all (api staff a b c sign schedule) us db)
  unfolding recalculate_all
  recalculate_all-CanRefund [] db h = h
  recalculate_all-CanRefund (u ∷ us) db h =
      recalculate_all-CanRefund us _ (recalculate-CanRefund u db h)

module _ (staff : Option ℕ) (a b c sign schedule : ℕ → Db → Result (Unit {0})) (m now : ℕ) where
  settle_prediction-CanRefund :
      (winner : ℕ) (p : Prediction) (ps : List Prediction) (db : Db)
      → IsClosing m (p ∷ ps) db
      → CanRefund db
      → CanRefund (settle_prediction (api staff a b c sign schedule) winner now p db)
  unfolding settle_prediction set_prediction
  settle_prediction-CanRefund winner p ps db h r =
      let won = p.market_option_id == winner in
      let db1 = record db {
        wallet = settle_wallet (api staff a b c sign schedule) won p db.wallet;
        predictions = update p.id (settled won now) db.predictions;
      } in
      let step =
        IsRefundable-close db.last_prediction_id p.id (settled won now) db.wallet db1.wallet
          db.predictions
          (settle_wallet-Spares staff a b c sign schedule db.last_prediction_id p db.wallet
            (pending_within _ p ps db h.safe.keyed h.pending) won)
          r (λ q. refl) in
      if_either CanRefund (is_bot p.user_id db1) step (
        apply_delta-CanRefund staff a b c sign schedule p.user_id p.probability_at_entry won db1
          step)

  settle_all-CanRefund :
      (winner : ℕ) (ps : List Prediction) (db : Db)
      → IsClosing m ps db
      → CanRefund db
      → CanRefund (settle_all (api staff a b c sign schedule) winner now ps db)
  unfolding settle_all
  settle_all-CanRefund winner [] db h r = r
  settle_all-CanRefund winner (p ∷ ps) db h r =
      settle_all-CanRefund winner ps _
        (settle_prediction-IsClosing staff a b c sign schedule m winner now p ps db h)
        (settle_prediction-CanRefund winner p ps db h r)

  pub resolve_market_predictions-CanRefund :
      (winner : ℕ) (db : Db)
      → IsBacked db
      → CanRefund db
      → CanRefund (resolve_market_predictions (api staff a b c sign schedule) m winner now db)
  unfolding resolve_market_predictions
  resolve_market_predictions-CanRefund winner db h r =
      let end = settle_all-CanRefund winner (open_predictions m db) db (IsClosing-start m db h) r in
      record { unrefunded = end.unrefunded; numbered = end.numbered }

  undo_prediction-CanRefund :
      (p : Prediction) (ps : List Prediction) (db : Db)
      → IsReopening m (p ∷ ps) db
      → CanRefund db
      → CanRefund (undo_prediction (api staff a b c sign schedule) now p db)
  unfolding undo_prediction set_prediction
  undo_prediction-CanRefund p ps db h r =
      let n = db.last_prediction_id in
      let (spares, row, unrefunded) =
        undo_wallet-relocks staff a b c sign schedule n p db.wallet
          (pending_within _ p ps db h.safe.keyed h.pending) r.numbered in
      IsRefundable-reopen n p.id (reopened now) db.wallet
        (undo_wallet (api staff a b c sign schedule) p db.wallet) db.predictions spares r p
        h.pending.0 refl row unrefunded

  undo_all-CanRefund :
      (ps : List Prediction) (db : Db)
      → IsReopening m ps db
      → CanRefund db
      → CanRefund (undo_all (api staff a b c sign schedule) now ps db)
  unfolding undo_all
  undo_all-CanRefund [] db h r = r
  undo_all-CanRefund (p ∷ ps) db h r =
      undo_all-CanRefund ps _
        (undo_prediction-IsReopening staff a b c sign schedule m now p ps db h)
        (undo_prediction-CanRefund p ps db h r)

  pub undo_resolved_market_predictions-CanRefund :
      (db : Db)
      → IsBacked db
      → CanRefund db
      → CanRefund (undo_resolved_market_predictions (api staff a b c sign schedule) m now db)
  unfolding undo_resolved_market_predictions resolved_predictions
  undo_resolved_market_predictions-CanRefund db h r =
      recalculate_all-CanRefund staff a b c sign schedule
        (affected_users (resolved_predictions m db)) _
        (undo_all-CanRefund (resolved_predictions m db) db
          (record {
            safe = h;
            pending =
                select-IsPending (is_resolved_in m) db.last_prediction_id db.predictions h.keyed;
          })
          r)

  -- Refunds leave the other open predictions refundable.
  refund_all-CanRefund :
      (ps : List Prediction) (counts : RefundCounts) (db : Db)
      → IsPending (is_open_in m) db.predictions ps
      → IsKeyed db.last_prediction_id db.predictions
      → CanRefund db
      → Ensures (λ r. CanRefund r.1) (refund_all (api staff a b c sign schedule) now ps counts db)
  unfolding refund_all set_prediction
  refund_all-CanRefund [] counts db h k r = r
  refund_all-CanRefund (p ∷ ps) counts db h k r =
      let n = db.last_prediction_id in
      let within = pending_within _ p ps db k h in
      let keyed = IsKeyed-update n p.id (withdrawn now) db.predictions (λ q. refl) k in
      let pending =
        IsPending-update (is_open_in m) p.id (withdrawn now) db.predictions ps h.2 h.3 in
      Ensures-if _ (has_refund p.id db.wallet.ledger) _ _
        (λ refunded. refund_all-CanRefund ps _ _ pending keyed (
          IsRefundable-close n p.id (withdrawn now) db.wallet db.wallet db.predictions
            (Spares-refl n _ db.wallet) r (λ q. refl)))
        λ unrefunded.
          Ensures-if _ (locked_is_short p.stake_amount (lookup p.user_id db.wallet.balances)) _ _
            (λ short. tt)
            λ enough. refund_all-CanRefund ps _ _ pending keyed (
              IsRefundable-close n p.id (withdrawn now) db.wallet _ db.predictions
                (refund_stake-Spares staff a b c sign schedule n p db.wallet within) r (λ q. refl))

  pub refund_market_predictions-CanRefund :
      (db : Db)
      → IsBacked db
      → CanRefund db
      → Ensures
          (λ r. CanRefund r.1)
          (refund_market_predictions (api staff a b c sign schedule) m now db)
  unfolding refund_market_predictions open_predictions
  refund_market_predictions-CanRefund db h r =
      refund_all-CanRefund (open_predictions m db) _ db
        (select-IsPending (is_open_in m) db.last_prediction_id db.predictions h.keyed) h.keyed r
