-- ===== src/Rewards/Adjusting.antt =====
-- The manual adjustment.
use gotrendlabs.Prelude.{
  ℕ, ◌≡◌, true, false, not, some, List, ◌==◌, ◌&&◌, raise_if, raise_if-eq-ok, raise_if-not-eq-ok,
  Ensures, Ensures-bind, arith, refl, sym, ap, ◌∙◌, note_required, direction_invalid,
  insufficient_balance,
}
use gotrendlabs.Prelude.Int.{ℤ, pos, neg_part, ◌+ℤ◌, ltb_ℤ}
use gotrendlabs.Prelude.Table.{lookup}
use gotrendlabs.Wallet.{
  Direction, credit, debit, manual_adjustment, Reference, admin_user_adjustment, suggestion,
  feedback, wallet_recharge_request, available_case, locked_case, wallet_summary,
  record_wallet_entry, lock, release, settle,
}
use gotrendlabs.Wallet.Effects.{available_of}
use gotrendlabs.Db.{Db}
use gotrendlabs.Db.Backing.{IsBacked}
use gotrendlabs.Lifecycle.Engine.{ensure_user_core}
use gotrendlabs.Lifecycle.Settling.{KeepsStakes-IsBacked, ensure_user_core-KeepsStakes}
use gotrendlabs.Rewards.{
  Desk, AdjustmentPayload, check_amount, AdminEvent, is_adjustment, is_debit, known_user,
  admin_adjust_user_wallet,
}
use gotrendlabs.Rewards.Entries.{
  paid, paid-record_wallet_entry, IsSolvent, record_wallet_entry-IsBacked,
  record_wallet_entry-IsSolvent, credit_fits, debit_fits, ensure_user_core-KeepsSums,
  wallet_summary-balance_of, wallet_summary-KeepsSums, wallet_summary-IsBacked,
}
use gotrendlabs.Rewards.Paid.{IsSound}

module _ (staff u amount : ℕ) (desk : Desk) (h : IsSound desk) where
  -- The database that the adjustment reads.
  abbrev ready : Db
  ready =
      let db = ensure_user_core u desk.db in record db { wallet = (wallet_summary u db.wallet).1 }

  ready_sums : (r : Reference) → paid r ready.wallet.ledger ≡ paid r desk.db.wallet.ledger
  ready_sums r =
      let db = ensure_user_core u desk.db in
      (wallet_summary-KeepsSums u db.wallet).sums r ∙ (ensure_user_core-KeepsSums u desk.db).sums r

  ready-IsSolvent : IsSolvent ready.wallet
  ready-IsSolvent =
      let db = ensure_user_core u desk.db in
      (wallet_summary-KeepsSums u db.wallet).solvent
        ((ensure_user_core-KeepsSums u desk.db).solvent h.solvent)

  ready-IsBacked : IsBacked ready
  ready-IsBacked =
      let db = ensure_user_core u desk.db in
      wallet_summary-IsBacked u db
        (KeepsStakes-IsBacked desk.db db (ensure_user_core-KeepsStakes u desk.db) h.backed)

  adjusted_IsSound :
      (d : Direction) (events : List AdminEvent)
      → locked_case d amount ≡ pos 0
      → neg_part (available_case d amount +ℤ available_of u ready.wallet) ≡ 0
      → IsSound (record desk {
        db = record ready {
          wallet =
              record_wallet_entry u manual_adjustment amount d
                (admin_user_adjustment u)
                (some staff)
                ready.wallet;
        };
        events = events;
      })
  adjusted_IsSound d events unlocked fits =
      let ref = admin_user_adjustment u in
      record {
        backed =
            record_wallet_entry-IsBacked u manual_adjustment amount d ref (some staff) ready
              unlocked ready-IsBacked;
        solvent =
            record_wallet_entry-IsSolvent u manual_adjustment amount d ref (some staff) ready.wallet
              fits ready-IsSolvent;
        suggestions = λ j. omega (
          arith,
          paid-record_wallet_entry u manual_adjustment amount d ref (some staff) (suggestion j)
              ready.wallet,
          ready_sums (suggestion j),
          h.suggestions j,
        );
        feedbacks = λ j. omega (
          arith,
          paid-record_wallet_entry u manual_adjustment amount d ref (some staff) (feedback j)
              ready.wallet,
          ready_sums (feedback j),
          h.feedbacks j,
        );
        recharges = λ j. omega (
          arith,
          paid-record_wallet_entry u manual_adjustment amount d ref (some staff)
              (wallet_recharge_request j) ready.wallet,
          ready_sums (wallet_recharge_request j),
          h.recharges j,
        );
      }

-- A direction that passed its guard locks nothing, and what it takes is there.
adjustment_fits :
    (d : Direction) (amount : ℕ) (z : ℤ)
    → is_adjustment d ≡ true
    → (is_debit d && ltb_ℤ z (pos amount)) ≡ false
    → neg_part z ≡ 0
    → (locked_case d amount ≡ pos 0) × (neg_part (available_case d amount +ℤ z) ≡ 0)
unfolding locked_case available_case
adjustment_fits credit amount z a f h = (refl, credit_fits amount z h)
adjustment_fits debit amount z a f h = (refl, debit_fits amount z f h)
adjustment_fits lock amount z a f h = cc
adjustment_fits release amount z a f h = cc
adjustment_fits settle amount z a f h = cc

pub admin_adjust_user_wallet-IsSound :
    (strip : ℕ → ℕ) (staff u : ℕ) (payload : AdjustmentPayload) (desk : Desk)
    → IsSound desk
    → Ensures IsSound (admin_adjust_user_wallet strip staff u payload desk)
unfolding admin_adjust_user_wallet
admin_adjust_user_wallet-IsSound strip staff u payload desk h =
    let db = ensure_user_core u desk.db in
    let summary = wallet_summary u db.wallet in
    Ensures-bind IsSound (check_amount 1000000 payload.amount_gtl) _ λ _ _.
      Ensures-bind IsSound (raise_if (strip payload.note == 0) note_required) _ λ _ _.
        Ensures-bind IsSound (raise_if (not (is_adjustment payload.direction)) direction_invalid) _
          λ _ allowed. Ensures-bind IsSound (known_user (lookup u desk.db.users)) _ λ user _.
            Ensures-bind IsSound
              (raise_if
                (is_debit payload.direction
                  && ltb_ℤ summary.0.available_gtl (pos payload.amount_gtl))
                insufficient_balance)
              _
              λ _ covered.
                let fits =
                  adjustment_fits payload.direction payload.amount_gtl summary.0.available_gtl
                    (raise_if-not-eq-ok _ _ allowed) (raise_if-eq-ok _ _ covered)
                    (ap (λ b. neg_part b.available_gtl) (wallet_summary-balance_of u db.wallet)
                      ∙ ready-IsSolvent staff u payload.amount_gtl desk h u) in
                adjusted_IsSound staff u payload.amount_gtl desk h payload.direction _ fits.0 (
                  ap
                    (λ b.
                      neg_part
                        (available_case payload.direction payload.amount_gtl +ℤ b.available_gtl))
                    (sym (wallet_summary-balance_of u db.wallet))
                  ∙ fits.1)
