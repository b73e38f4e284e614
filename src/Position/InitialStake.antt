-- ===== src/Position/InitialStake.antt =====
-- The first prediction writes ledger and balance itself; it does what `_record_wallet_entry` does.
use gotrendlabs.Prelude.{
  ℕ, ◌≡◌, ◌==◌, true, false, refl, inl, inr, Bool-cases, Option-cases, ap, ◌∙◌, if◌then◌else◌,
}
use gotrendlabs.Prelude.Int.{pos, ◌+ℤ◌}
use gotrendlabs.Prelude.Table.{lookup, lookup-update}
use gotrendlabs.Wallet.{Wallet, Balance, add, ledger_wallet_totals, entry_totals}
use gotrendlabs.Wallet.Consistency.{
  IsConsistent, balance_of, balance_of-eq-totals, IsConsistent-of_balance_of,
}
use gotrendlabs.Wallet.Effects.{locked_of}
use gotrendlabs.Position.Write.{lock_stake, lock_initial_stake}

module _ (u stake id j : ℕ) (w : Wallet) where
  totals-lock_initial_stake : ledger_wallet_totals (lock_initial_stake u stake id w).ledger j ≡ (
      if u == j
      then add (lock_stake stake) (ledger_wallet_totals w.ledger j)
      else ledger_wallet_totals w.ledger j)
  unfolding lock_initial_stake ledger_wallet_totals entry_totals
  totals-lock_initial_stake = refl

  pub balance_of-lock_initial_stake :
      balance_of j (lock_initial_stake u stake id w)
      ≡ (if u == j then add (lock_stake stake) (balance_of j w) else balance_of j w)
  unfolding lock_initial_stake balance_of
  balance_of-lock_initial_stake =
      rw (lookup-update, totals-lock_initial_stake)
        (elim (Bool-cases (u == j)) [
          | inl same ↦ rw same (elim (Option-cases (lookup j w.balances)) [
            | inl e ↦ rw e refl
            | inr (b, e) ↦ rw e refl
          ])
          | inr other ↦ rw other refl
        ])

pub lock_initial_stake-IsConsistent :
    (u stake id : ℕ) (w : Wallet) → IsConsistent w → IsConsistent (lock_initial_stake u stake id w)
lock_initial_stake-IsConsistent u stake id w h =
    IsConsistent-of_balance_of _ λ j.
      rw (balance_of-lock_initial_stake, totals-lock_initial_stake, balance_of-eq-totals h) refl

module _ (u stake id j : ℕ) (w : Wallet) where
  pub locked-lock_initial_own :
      (u == j) ≡ true → locked_of j (lock_initial_stake u stake id w) ≡ pos stake +ℤ locked_of j w
  unfolding add lock_stake
  locked-lock_initial_own same =
      ap (λ (b : Balance). b.locked_gtl) (balance_of-lock_initial_stake u stake id j w)
      ∙ rw same refl

  pub locked-lock_initial_other :
      (u == j) ≡ false → locked_of j (lock_initial_stake u stake id w) ≡ locked_of j w
  locked-lock_initial_other other =
      ap (λ (b : Balance). b.locked_gtl) (balance_of-lock_initial_stake u stake id j w)
      ∙ rw other refl
