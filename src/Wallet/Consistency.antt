-- ===== src/Wallet/Consistency.antt =====
-- The cached balance rows never drift from the ledger.
use gotrendlabs.Prelude.{
  ℕ, ◌≡◌, refl, Option, some, arith, ◌==◌, ap, inl, inr, Bool-cases, Option-cases, if◌then◌else◌,
  sym, ◌∙◌,
}
use gotrendlabs.Prelude.Table.{lookup, lookup-update, lookup-insert_new, or_else}
use gotrendlabs.Wallet.Defs.{
  Direction, credit, debit, lock, release, settle, EntryType, Reference, Balance, Wallet, add,
  available_case, locked_case, earned_case, entry_totals, ledger_wallet_totals,
  ensure_wallet_balance, deltas, record_wallet_entry,
}

-- Every balance row holds the totals of the user's ledger entries.
pub record IsConsistent (w : Wallet) : Type 0 where
  pub rows :
      (u : ℕ) (b : Balance) → lookup u w.balances ≡ some b → b ≡ ledger_wallet_totals w.ledger u

-- What `_wallet_summary` shows of a user: the row, or the totals from which it would be made.
unfoldable pub balance_of : ℕ → Wallet → Balance
balance_of u w = or_else (lookup u w.balances) (ledger_wallet_totals w.ledger u)

pub balance_of-eq-totals :
    {w : Wallet} → IsConsistent w → (u : ℕ) → balance_of u w ≡ ledger_wallet_totals w.ledger u
unfolding balance_of
balance_of-eq-totals {w} h u = elim (Option-cases (lookup u w.balances)) [
  | inl e ↦ rw e refl
  | inr (b, e) ↦ rw e (h.rows u b e)
]

pub IsConsistent-of_balance_of :
    (w : Wallet) → ((u : ℕ) → balance_of u w ≡ ledger_wallet_totals w.ledger u) → IsConsistent w
unfolding balance_of
IsConsistent-of_balance_of w h = record {
  rows = λ u b e. ap (λ o. or_else o (ledger_wallet_totals w.ledger u)) (sym e) ∙ h u;
}

-- The deltas that the Python code computes are the entry's terms of the SQL sums.
pub deltas-eq-cases :
    (t : EntryType) (amount : ℕ) (d : Direction)
    → deltas t amount d ≡ record {
      available_gtl = available_case d amount;
      locked_gtl = locked_case d amount;
      total_earned_gtl = earned_case d t amount;
    }
unfolding deltas available_case locked_case earned_case
deltas-eq-cases t amount credit = ground arith
deltas-eq-cases t amount debit = ground arith
deltas-eq-cases t amount lock = ground arith
deltas-eq-cases t amount release = ground arith
deltas-eq-cases t amount settle = ground arith

-- Ensuring a row leaves the ledger alone.
pub ledger-ensure_wallet_balance :
    (u : ℕ) (w : Wallet) → (ensure_wallet_balance u w).ledger ≡ w.ledger
unfolding ensure_wallet_balance
ledger-ensure_wallet_balance u w = ground arith

pub last_id-ensure_wallet_balance :
    (u : ℕ) (w : Wallet) → (ensure_wallet_balance u w).last_id ≡ w.last_id
unfolding ensure_wallet_balance
last_id-ensure_wallet_balance u w = ground arith

-- Afterwards the row is there: the old one, or the ledger's totals.
pub lookup-ensure_wallet_balance :
    (u j : ℕ) (w : Wallet)
    → lookup j (ensure_wallet_balance u w).balances ≡ (
        if u == j
        then some (or_else (lookup j w.balances) (ledger_wallet_totals w.ledger j))
        else lookup j w.balances)
unfolding ensure_wallet_balance
lookup-ensure_wallet_balance u j w =
    ground (arith, lookup-insert_new u j (ledger_wallet_totals w.ledger u) w.balances)

-- Ensuring a row keeps every row equal to the ledger's totals.
pub ensure_wallet_balance-IsConsistent :
    (u : ℕ) (w : Wallet) → IsConsistent w → IsConsistent (ensure_wallet_balance u w)
ensure_wallet_balance-IsConsistent u w h = record {
  rows = λ j b e.
      rw ledger-ensure_wallet_balance
        (ground (arith, h.rows j b, lookup-ensure_wallet_balance u j w));
}

-- Making the row changes nothing that anybody sees.
pub balance_of-ensure_wallet_balance :
    (u j : ℕ) (w : Wallet) → balance_of j (ensure_wallet_balance u w) ≡ balance_of j w
unfolding balance_of
balance_of-ensure_wallet_balance u j w =
    rw (lookup-ensure_wallet_balance, ledger-ensure_wallet_balance)
      (elim (Bool-cases (u == j)) [ inl same ↦ rw same refl | inr other ↦ rw other refl ])

module _ (u : ℕ) (t : EntryType) (amount : ℕ) (d : Direction) (r : Reference) (by : Option ℕ) where
  -- The entry's user is at the front of the ledger, so the totals grow by the entry's terms.
  pub totals-record_wallet_entry :
      (w : Wallet) (j : ℕ)
      → ledger_wallet_totals (record_wallet_entry u t amount d r by w).ledger j ≡ (
          if u == j
          then add (deltas t amount d) (ledger_wallet_totals w.ledger j)
          else ledger_wallet_totals w.ledger j)
  unfolding record_wallet_entry ledger_wallet_totals entry_totals
  totals-record_wallet_entry w j = rw (ledger-ensure_wallet_balance, deltas-eq-cases) refl

  pub lookup-record_wallet_entry :
      (w : Wallet) (j : ℕ)
      → lookup j (record_wallet_entry u t amount d r by w).balances ≡ (
          if u == j
          then some (
              add
                (deltas t amount d)
                (or_else (lookup j w.balances) (ledger_wallet_totals w.ledger j)))
          else lookup j w.balances)
  unfolding record_wallet_entry
  lookup-record_wallet_entry w j = ground (
    arith,
    lookup-update u j (add (deltas t amount d)) (ensure_wallet_balance u w).balances,
    lookup-ensure_wallet_balance u j w,
  )

  -- What the user sees is what they saw, moved by the entry's deltas; nobody else sees a change.
  pub balance_of-record_wallet_entry :
      (w : Wallet) (j : ℕ)
      → balance_of j (record_wallet_entry u t amount d r by w)
        ≡ (if u == j then add (deltas t amount d) (balance_of j w) else balance_of j w)
  unfolding balance_of
  balance_of-record_wallet_entry w j =
      rw (lookup-record_wallet_entry, totals-record_wallet_entry)
        (elim (Bool-cases (u == j)) [ inl same ↦ rw same refl | inr other ↦ rw other refl ])

  -- Recording any entry keeps every balance row equal to the sums over the ledger.
  pub record_wallet_entry-IsConsistent :
      (w : Wallet) → IsConsistent w → IsConsistent (record_wallet_entry u t amount d r by w)
  record_wallet_entry-IsConsistent w h = IsConsistent-of_balance_of _ λ j.
      rw (balance_of-record_wallet_entry, totals-record_wallet_entry, balance_of-eq-totals h) refl
