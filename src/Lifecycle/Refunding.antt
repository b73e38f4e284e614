-- ===== src/Lifecycle/Refunding.antt =====
-- Canceling a market with the API's callbacks: the refunds give back every open stake once.
use gotrendlabs.Prelude.{
  ℕ, ap, ◌≤◌, ◌≡◌, Bool, true, false, Option, none, some, List, ◌∷◌, arith, ◌==◌, inl, inr,
  Option-cases, ==_refl, if_either, refl, sym, ◌∙◌, Result,
}
use gotrendlabs.Prelude.Int.{ltb_ℤ, pos, ◌+ℤ◌, int_laws, parts_of_eq}
use gotrendlabs.Prelude.Lists.{any}
use gotrendlabs.Prelude.Table.{or_else, lookup}
use gotrendlabs.Wallet.{
  Wallet, LedgerEntry, Balance, ledger_wallet_totals, record_wallet_entry, insert_entry, release,
  prediction_refund, prediction, locked_case, available_case,
}
use gotrendlabs.Wallet.Consistency.{
  balance_of, lookup-record_wallet_entry, ledger-ensure_wallet_balance,
}
use gotrendlabs.Wallet.Effects.{
  locked_of, available_of, locked-record_own, locked-record_other, available-record_own,
}
use gotrendlabs.Db.{Db, Prediction, open_stake_of, open_stakes, is_open}
use gotrendlabs.Db.Stakes.{sum_rows-update}
use gotrendlabs.Db.Backing.{IsBacked}
use gotrendlabs.Lifecycle.Engine.{api_engine}
use gotrendlabs.Lifecycle.Refund.{
  is_refund_after, refers_to, last_lock, has_refund, locked_is_short, withdrawn, refund_stake,
}
use gotrendlabs.Lifecycle.Settling.{api}

-- A balance row exists.
abbrev pub is_some : Option Balance → Bool
is_some none = false
is_some (some b) = true

abbrev pub has_row : ℕ → Wallet → Bool
has_row u w = is_some (lookup u w.balances)

-- What the loop asks of an open row: its user has a balance row, and no refund of it was recorded
-- after its last lock.
abbrev pub IsUnrefunded : Wallet → Prediction → Type 0
IsUnrefunded w p = (has_row p.user_id w ≡ true) × (has_refund p.id w.ledger ≡ false)

pub last_lock-cons :
    (id : ℕ) (e : LedgerEntry) (es : List LedgerEntry)
    → refers_to id e.reference ≡ false
    → last_lock id (e ∷ es) ≡ last_lock id es
unfolding last_lock
last_lock-cons id e es other = rw other refl

-- An entry about another prediction changes nothing.
pub has_refund-cons :
    (id : ℕ) (e : LedgerEntry) (es : List LedgerEntry)
    → refers_to id e.reference ≡ false
    → has_refund id (e ∷ es) ≡ has_refund id es
unfolding has_refund
has_refund-cons id e es other =
    rw other (ap (λ k. any (is_refund_after id k) es) (last_lock-cons id e es other))

module _ (staff : Option ℕ) (a b c sign schedule : ℕ → Db → Result (Unit {0})) where
  -- A refund gives the stake back: from the locked balance to the available one.
  pub refund_stake_own :
      (j : ℕ) (p : Prediction) (w : Wallet)
      → (p.user_id == j) ≡ true
      → let w' = refund_stake (api staff a b c sign schedule) p w in
        (locked_of j w' +ℤ pos p.stake_amount ≡ locked_of j w)
        × (available_of j w' ≡ available_of j w +ℤ pos p.stake_amount)
  unfolding api_engine refund_stake locked_case available_case
  refund_stake_own j p w same = (
    omega (
      int_laws,
      parts_of_eq (
          locked-record_own p.user_id j prediction_refund p.stake_amount release (prediction p.id)
            staff w same),
    ),
    omega (
      int_laws,
      parts_of_eq (
          available-record_own p.user_id j prediction_refund p.stake_amount release
            (prediction p.id) staff w same),
    ),
  )

  pub refund_stake_other :
      (j : ℕ) (p : Prediction) (w : Wallet)
      → (p.user_id == j) ≡ false
      → locked_of j (refund_stake (api staff a b c sign schedule) p w) ≡ locked_of j w
  unfolding api_engine refund_stake
  refund_stake_other j p w other =
      locked-record_other p.user_id j prediction_refund p.stake_amount release (prediction p.id)
        staff w other

  -- The refund of one row is no refund of another, and takes no balance row away.
  pub refund_stake-IsUnrefunded :
      (p r : Prediction) (w : Wallet)
      → (p.id == r.id) ≡ false
      → IsUnrefunded w r
      → IsUnrefunded (refund_stake (api staff a b c sign schedule) p w) r
  unfolding api_engine refund_stake record_wallet_entry insert_entry
  refund_stake-IsUnrefunded p r w other h = (
    ap is_some (
          lookup-record_wallet_entry p.user_id prediction_refund p.stake_amount release
            (prediction p.id) staff w r.user_id)
        ∙ if_either (λ o. is_some o ≡ true) (p.user_id == r.user_id) refl h.0,
    has_refund-cons r.id _ _ other
        ∙ ap (has_refund r.id) (ledger-ensure_wallet_balance p.user_id w)
        ∙ h.1,
  )

-- A user's locked balance covers each of the user's open stakes.
shown :
    (u : ℕ) (w : Wallet) (b : Balance) → lookup u w.balances ≡ some b → locked_of u w ≡ b.locked_gtl
unfolding balance_of
shown u w b e = ap (λ o. (or_else o (ledger_wallet_totals w.ledger u)).locked_gtl) e

pub locked_is_enough :
    (p : Prediction) (db : Db)
    → IsBacked db
    → lookup p.id db.predictions ≡ some p
    → is_open p.status ≡ true
    → has_row p.user_id db.wallet ≡ true
    → locked_is_short p.stake_amount (lookup p.user_id db.wallet.balances) ≡ false
unfolding locked_is_short
locked_is_enough p db h e o row =
    let sums = sum_rows-update (open_stake_of p.user_id) p.id (withdrawn 0) p db.predictions e in
    let own : open_stake_of p.user_id p ≡ p.stake_amount = rw (o, ==_refl p.user_id) refl in
    let closed : open_stake_of p.user_id (withdrawn 0 p) ≡ 0 = ground arith in
    elim (Option-cases (lookup p.user_id db.wallet.balances)) [
      | inl missing ↦ cc
      | inr (b, found) ↦ rw found (
          covers p.stake_amount (open_stakes p.user_id db.predictions) b
            (sym (shown p.user_id db.wallet b found) ∙ h.backed p.user_id)
            (omega (arith, own, closed, sums)))
    ]
  where
    covers :
        (stake total : ℕ) (b : Balance)
        → b.locked_gtl ≡ pos total
        → stake ≤ total
        → ltb_ℤ b.locked_gtl (pos stake) ≡ false
    covers stake total b e le = rw e (ground arith)
