-- ===== src/Lifecycle/Daemon.antt =====
-- The daemon's own `_record_wallet_entry` against the API's.
use gotrendlabs.Prelude.{ℕ, ◌≡◌, Option, some, arith, refl, sym, ap, ==_refl}
use gotrendlabs.Prelude.Int.{ℤ, pos, ◌+ℤ◌, ◌-ℤ◌, neg, ◌≤ℤ◌, +ℤ_comm, zero-+ℤ}
use gotrendlabs.Prelude.Table.{lookup, lookup-update, lookup-insert_new}
use gotrendlabs.Wallet.{
  Wallet, Balance, release, EntryType, Reference, add, deltas, insert_entry, record_wallet_entry,
}
use gotrendlabs.Wallet.Consistency.{lookup-record_wallet_entry}
use gotrendlabs.Lifecycle.Engine.{daemon_record_wallet_entry, greatest_zero}

greatest_zero-of_le : (l : ℤ) (n : ℕ) → pos n ≤ℤ l → greatest_zero l n ≡ neg n +ℤ l
unfolding greatest_zero ◌-ℤ◌ ◌+ℤ◌ neg
greatest_zero-of_le l n h = ground arith

abbrev new_balance : ℤ → ℤ → ℤ → Balance
new_balance a l t = record { available_gtl = a; locked_gtl = l; total_earned_gtl = t }

Balance_eq :
    {a a' l l' t t' : ℤ} → a ≡ a' → l ≡ l' → t ≡ t' → new_balance a l t ≡ new_balance a' l' t'
Balance_eq e f g = rw (e, f, g) refl

-- A release that the daemon records leaves a user's existing balance row as the API would leave it,
-- when at least the released amount is locked.
pub daemon_release-eq-record_wallet_entry :
    (u amount : ℕ) (t : EntryType) (r : Reference) (by : Option ℕ) (w : Wallet) (b : Balance)
    → lookup u w.balances ≡ some b
    → pos amount ≤ℤ b.locked_gtl
    → lookup u (daemon_record_wallet_entry u t amount release r by w).balances
      ≡ lookup u (record_wallet_entry u t amount release r by w).balances
unfolding daemon_record_wallet_entry insert_entry add deltas
daemon_release-eq-record_wallet_entry u amount t r by w b e h =
    rw (lookup-update, lookup-insert_new, lookup-record_wallet_entry, ==_refl u, e)
      (ap some (
        Balance_eq (+ℤ_comm b.available_gtl (pos amount))
          (greatest_zero-of_le b.locked_gtl amount h) (sym (zero-+ℤ b.total_earned_gtl))))
