-- ===== src/Refunds/Wallets.antt =====
-- Which predictions the wallet steps of the engine spare, with the API's callbacks.
use gotrendlabs.Prelude.{
  ℕ, ◌≤◌, ◌≡◌, Bool, true, false, Option, none, arith, ◌==◌, ◌||◌, if_either, refl, ◌∙◌, Result,
  inl, inr, Option-cases, ==_refl, if◌then◌else◌,
}
use gotrendlabs.Prelude.Table.{lookup}
use gotrendlabs.Wallet.{
  Wallet, lock, release, credit, debit, settle, prediction_refund, prediction_payout,
  prediction_loss, prediction_payout_reversal, prediction_resolution_relock, prediction,
  grant_initial, auth_register, record_wallet_entry,
}
use gotrendlabs.Db.{Db, Prediction}
use gotrendlabs.Lifecycle.Engine.{
  api_engine, ensure_user_core, grant_once, has_initial_grant, initial_grant_gtl,
}
use gotrendlabs.Lifecycle.Settlement.{payout_net, pay_winner, charge_loser, settle_wallet}
use gotrendlabs.Lifecycle.Reputation.{is_won}
use gotrendlabs.Lifecycle.Refund.{refund_stake, has_refund}
use gotrendlabs.Lifecycle.Refunding.{has_row}
use gotrendlabs.Lifecycle.Undo.{payouts_of, relock, undo_win, undo_loss, undo_wallet}
use gotrendlabs.Lifecycle.Settling.{api}
use gotrendlabs.Refunds.Entries.{
  AreNumbered, Spares, Spares-refl, Spares-trans, Spares-weaken, Unnamed, ensure-Spares,
  record-Spares, has_row-record, has_refund-record_lock,
}

-- The initial grant is about no prediction.
grant_once-Spares : (n u : ℕ) (w : Wallet) → Spares n (λ k. Unit {0}) w (grant_once u w)
unfolding grant_once
grant_once-Spares n u w =
    if_either (Spares n (λ k. Unit {0}) w) (has_initial_grant u w) (ensure-Spares n _ u w) (
      Spares-weaken (λ k s. refl)
        (record-Spares u grant_initial initial_grant_gtl credit (auth_register u) none w n tt))

pub ensure_user_core-Spares :
    (n u : ℕ) (db : Db) → Spares n (λ k. Unit {0}) db.wallet (ensure_user_core u db).wallet
unfolding ensure_user_core
ensure_user_core-Spares n u db = elim (Option-cases (lookup u db.users)) [
  | inl missing ↦ rw (ensure_user_core, missing) (Spares-refl n _ db.wallet)
  | inr (user, found) ↦
      rw (ensure_user_core, found)
        (if_either (λ (x : Db). Spares n (λ k. Unit {0}) db.wallet x.wallet)
          (user.is_staff || user.is_superuser || user.is_bot) (ensure-Spares n _ u db.wallet)
          (grant_once-Spares n u db.wallet))
]

module _ (staff : Option ℕ) (a b c sign schedule : ℕ → Db → Result (Unit {0})) (n : ℕ)
    (p : Prediction) (w : Wallet) (within : p.id ≤ n) where
  pub refund_stake-Spares :
      Spares n (Unnamed (prediction p.id)) w (refund_stake (api staff a b c sign schedule) p w)
  unfolding api_engine refund_stake
  refund_stake-Spares =
      record-Spares p.user_id prediction_refund p.stake_amount release (prediction p.id) staff w n
        within

  pub settle_wallet-Spares :
      (won : Bool)
      → Spares n
          (Unnamed (prediction p.id))
          w
          (settle_wallet (api staff a b c sign schedule) won p w)
  unfolding api_engine settle_wallet pay_winner charge_loser
  settle_wallet-Spares true =
      let s =
        record-Spares p.user_id prediction_refund p.stake_amount release (prediction p.id) staff w n
          within in
      if_either (Spares n (Unnamed (prediction p.id)) w) (payout_net p == 0) s (
        Spares-trans s (
          record-Spares p.user_id prediction_payout (payout_net p) credit (prediction p.id) staff _
            n within))
  settle_wallet-Spares false =
      record-Spares p.user_id prediction_loss p.stake_amount settle (prediction p.id) staff w n
        within

  -- The wallet before the stake is locked again.
  abbrev unsettled : Wallet
  unsettled =
      if is_won p.won
      then (if payouts_of p.id w.ledger == 0
          then w
          else record_wallet_entry p.user_id prediction_payout_reversal (payouts_of p.id w.ledger)
              debit (prediction p.id) staff w)
      else record_wallet_entry p.user_id prediction_refund p.stake_amount credit (prediction p.id)
          staff w

  undo_wallet-eq-relock :
      undo_wallet (api staff a b c sign schedule) p w
      ≡ record_wallet_entry p.user_id prediction_resolution_relock p.stake_amount lock
          (prediction p.id)
          staff
          unsettled
  unfolding api_engine undo_wallet undo_win undo_loss relock
  undo_wallet-eq-relock = ground arith

  unsettled-Spares : Spares n (Unnamed (prediction p.id)) w unsettled
  unsettled-Spares =
      if_either (Spares n (Unnamed (prediction p.id)) w) (is_won p.won)
        (if_either (Spares n (Unnamed (prediction p.id)) w) (payouts_of p.id w.ledger == 0)
          (Spares-refl n _ w)
          (record-Spares p.user_id prediction_payout_reversal (payouts_of p.id w.ledger) debit
            (prediction p.id) staff w n within))
        (record-Spares p.user_id prediction_refund p.stake_amount credit (prediction p.id) staff w n
          within)

  -- The stake is locked again after every refund, and the user has a balance row.
  pub undo_wallet-relocks :
      AreNumbered n w.last_id w.ledger
      → let w' = undo_wallet (api staff a b c sign schedule) p w in
        Spares n (Unnamed (prediction p.id)) w w'
        × (has_row p.user_id w' ≡ true)
        × (has_refund p.id w'.ledger ≡ false)
  undo_wallet-relocks h = rw undo_wallet-eq-relock (
    Spares-trans unsettled-Spares (
        record-Spares p.user_id prediction_resolution_relock p.stake_amount lock (prediction p.id)
          staff unsettled n within),
    has_row-record p.user_id prediction_resolution_relock p.stake_amount lock (prediction p.id)
          staff unsettled p.user_id
        ∙ rw (==_refl p.user_id) refl,
    has_refund-record_lock n p.id p.user_id prediction_resolution_relock p.stake_amount staff
        unsettled (unsettled-Spares.numbered h),
  )
