-- ===== src/Lifecycle/Undoing.antt =====
-- Undoing a resolution with the API's callbacks: what it moves in the wallet of one forecaster.
use gotrendlabs.Prelude.{
  ℕ, ◌+◌, ◌≤◌, ◌≡◌, Bool, true, false, Option, arith, ◌==◌, inl, inr, Bool-cases, ==_refl, ==_iff,
  if_either, if◌then◌else◌, refl, ◌∙◌, ap, Result,
}
use gotrendlabs.Prelude.Int.{pos, ◌+ℤ◌, int_laws, parts_of_eq, eq_of_parts}
use gotrendlabs.Wallet.{
  Wallet, lock, credit, debit, prediction_refund, prediction_payout_reversal,
  prediction_resolution_relock, prediction, available_case, locked_case, record_wallet_entry,
  insert_entry,
}
use gotrendlabs.Wallet.Consistency.{
  IsConsistent, ledger-ensure_wallet_balance, record_wallet_entry-IsConsistent,
}
use gotrendlabs.Wallet.Effects.{
  available_of, locked_of, available-record_own, locked-record_own, locked-record_other,
}
use gotrendlabs.Db.{Db, Prediction}
use gotrendlabs.Lifecycle.Engine.{api_engine}
use gotrendlabs.Lifecycle.Settlement.{payout_net, pay_winner, settle_wallet, settled}
use gotrendlabs.Lifecycle.Reputation.{is_won}
use gotrendlabs.Lifecycle.Undo.{payouts_of, relock, undo_win, undo_loss, undo_wallet}
use gotrendlabs.Lifecycle.Settling.{api, settle_own}

module _ (staff : Option ℕ) (a b c sign schedule : ℕ → Db → Result (Unit {0})) where
  module _ (j : ℕ) (p : Prediction) (w : Wallet) (same : (p.user_id == j) ≡ true) where
    relock_own :
        let w' = relock (api staff a b c sign schedule) p w in
        (available_of j w' +ℤ pos p.stake_amount ≡ available_of j w)
        × (locked_of j w' ≡ locked_of j w +ℤ pos p.stake_amount)
    unfolding api_engine relock available_case locked_case
    relock_own = (
      omega (
        int_laws,
        parts_of_eq (
            available-record_own p.user_id j prediction_resolution_relock p.stake_amount lock
              (prediction p.id) staff w same),
      ),
      omega (
        int_laws,
        parts_of_eq (
            locked-record_own p.user_id j prediction_resolution_relock p.stake_amount lock
              (prediction p.id) staff w same),
      ),
    )

  module _ (j : ℕ) (p : Prediction) (w : Wallet) (same : (p.user_id == j) ≡ true) where
    -- All that was ever paid for the prediction is taken back.
    undo_win_own :
        let w' = undo_win (api staff a b c sign schedule) p w in
        (available_of j w' +ℤ pos (p.stake_amount + payouts_of p.id w.ledger) ≡ available_of j w)
        × (locked_of j w' ≡ locked_of j w +ℤ pos p.stake_amount)
    unfolding api_engine undo_win available_case locked_case
    undo_win_own =
        let paid = payouts_of p.id w.ledger in
        let w1 =
          record_wallet_entry p.user_id prediction_payout_reversal paid debit (prediction p.id)
            staff w in
        elim (Bool-cases (paid == 0)) [
          | inl zero_paid ↦
              let r = relock_own j p w same in
              rw zero_paid (omega (int_laws, parts_of_eq r.0, (==_iff paid 0).0 zero_paid), r.1)
          | inr positive ↦
              let r = relock_own j p w1 same in
              rw positive (
                omega (
                  int_laws,
                  parts_of_eq r.0,
                  parts_of_eq (
                      available-record_own p.user_id j prediction_payout_reversal paid debit
                        (prediction p.id) staff w same),
                ),
                omega (
                  int_laws,
                  parts_of_eq r.1,
                  parts_of_eq (
                      locked-record_own p.user_id j prediction_payout_reversal paid debit
                        (prediction p.id) staff w same),
                ),
              )
        ]

    undo_loss_own :
        let w' = undo_loss (api staff a b c sign schedule) p w in
        (available_of j w' ≡ available_of j w)
        × (locked_of j w' ≡ locked_of j w +ℤ pos p.stake_amount)
    unfolding api_engine undo_loss available_case locked_case
    undo_loss_own =
        let w1 =
          record_wallet_entry p.user_id prediction_refund p.stake_amount credit (prediction p.id)
            staff w in
        let r = relock_own j p w1 same in
        (
          omega (
            int_laws,
            parts_of_eq r.0,
            parts_of_eq (
                available-record_own p.user_id j prediction_refund p.stake_amount credit
                  (prediction p.id) staff w same),
          ),
          omega (
            int_laws,
            parts_of_eq r.1,
            parts_of_eq (
                locked-record_own p.user_id j prediction_refund p.stake_amount credit
                  (prediction p.id) staff w same),
          ),
        )

  -- A winner's settlement adds its net payout to what was paid for the prediction.
  payouts_of-pay_winner :
      (p : Prediction) (w : Wallet)
      → payouts_of p.id (pay_winner (api staff a b c sign schedule) p w).ledger
        ≡ payout_net p + payouts_of p.id w.ledger
  unfolding api_engine pay_winner record_wallet_entry insert_entry payouts_of
  payouts_of-pay_winner p w = elim (Bool-cases (payout_net p == 0)) [
    | inl zero_net ↦
        rw (zero_net, ledger-ensure_wallet_balance, ==_refl p.id)
          (omega (arith, (==_iff (payout_net p) 0).0 zero_net))
    | inr positive ↦
        rw (positive, ledger-ensure_wallet_balance, ==_refl p.id)
          (ap (λ l. payout_net p + payouts_of p.id l) (ledger-ensure_wallet_balance p.user_id w))
  ]

  -- Settling a prediction whose payout is at least its stake, and then undoing that, gives the
  -- forecaster the locked balance back, and the available one less all payouts that had been
  -- credited for the prediction before the settlement when it had won; nothing is missing when it
  -- had lost.
  pub undo_wallet-settle_wallet :
      (j : ℕ) (p : Prediction) (now : ℕ) (w : Wallet)
      → (p.user_id == j) ≡ true
      → p.stake_amount ≤ p.potential_payout
      → (won : Bool)
      → let w' =
          undo_wallet
            (api staff a b c sign schedule)
            (settled won now p)
            (settle_wallet (api staff a b c sign schedule) won p w) in
        (available_of j w' +ℤ pos (if won then payouts_of p.id w.ledger else 0) ≡ available_of j w)
        × (locked_of j w' ≡ locked_of j w)
  unfolding undo_wallet settle_wallet payout_net
  undo_wallet-settle_wallet j p now w same le true =
      let w1 = pay_winner (api staff a b c sign schedule) p w in
      let s = settle_own staff a b c sign schedule j p w same true le in
      let u = undo_win_own j (settled true now p) w1 same in
      let paid = payouts_of-pay_winner p w in
      (
        omega (int_laws, parts_of_eq s.1, parts_of_eq u.0, paid),
        eq_of_parts _ _ (omega (int_laws, parts_of_eq s.0, parts_of_eq u.1)),
      )
  undo_wallet-settle_wallet j p now w same le false =
      let s = settle_own staff a b c sign schedule j p w same false le in
      let u =
        undo_loss_own j (settled false now p)
          (settle_wallet (api staff a b c sign schedule) false p w) same in
      (
        eq_of_parts _ _ (omega (int_laws, parts_of_eq s.1, parts_of_eq u.0)),
        eq_of_parts _ _ (omega (int_laws, parts_of_eq s.0, parts_of_eq u.1)),
      )

  pub undo_locked_own :
      (j : ℕ) (p : Prediction) (w : Wallet)
      → (p.user_id == j) ≡ true
      → locked_of j (undo_wallet (api staff a b c sign schedule) p w)
        ≡ locked_of j w +ℤ pos p.stake_amount
  unfolding undo_wallet
  undo_locked_own j p w same =
      if_either (λ w'. locked_of j w' ≡ locked_of j w +ℤ pos p.stake_amount) (is_won p.won)
        (undo_win_own j p w same).1 (undo_loss_own j p w same).1

  pub undo_locked_other :
      (j : ℕ) (p : Prediction) (w : Wallet)
      → (p.user_id == j) ≡ false
      → locked_of j (undo_wallet (api staff a b c sign schedule) p w) ≡ locked_of j w
  unfolding api_engine undo_wallet undo_win undo_loss relock
  undo_locked_other j p w other =
      let relocks = λ (v : Wallet).
        locked-record_other p.user_id j prediction_resolution_relock p.stake_amount lock
          (prediction p.id) staff v other in
      if_either (λ w'. locked_of j w' ≡ locked_of j w) (is_won p.won)
        (relocks _
          ∙ if_either (λ w'. locked_of j w' ≡ locked_of j w) (payouts_of p.id w.ledger == 0) refl
              (locked-record_other p.user_id j prediction_payout_reversal (payouts_of p.id w.ledger)
                debit (prediction p.id) staff w other))
        (relocks _
          ∙ locked-record_other p.user_id j prediction_refund p.stake_amount credit
              (prediction p.id) staff w other)

  pub undo-IsConsistent :
      (p : Prediction) (w : Wallet)
      → IsConsistent w
      → IsConsistent (undo_wallet (api staff a b c sign schedule) p w)
  unfolding api_engine undo_wallet undo_win undo_loss relock
  undo-IsConsistent p w h =
      let relocks = λ (v : Wallet) (k : IsConsistent v).
        record_wallet_entry-IsConsistent p.user_id prediction_resolution_relock p.stake_amount lock
          (prediction p.id) staff v k in
      if_either IsConsistent (is_won p.won)
        (relocks _ (
          if_either IsConsistent (payouts_of p.id w.ledger == 0) h (
            record_wallet_entry-IsConsistent p.user_id prediction_payout_reversal
              (payouts_of p.id w.ledger) debit (prediction p.id) staff w h)))
        (relocks _ (
          record_wallet_entry-IsConsistent p.user_id prediction_refund p.stake_amount credit
            (prediction p.id) staff w h))
