-- ===== src/Rewards/Entries.antt =====
-- What an entry that locks nothing does to the invariants.
use gotrendlabs.Prelude.{
  ℕ, ◌+◌, ◌≡◌, Bool, false, Option, none, List, ◌==◌, if◌then◌else◌, arith, refl, sym, ap, ◌∙◌, inl,
  inr, ==_iff, ==_refl, Bool-cases, Option-cases, if_either, ◌||◌,
}
use gotrendlabs.Prelude.Int.{ℤ, pos, neg, ◌+ℤ◌, neg_part, zero-+ℤ, ltb_ℤ}
use gotrendlabs.Prelude.Lists.{sum_by}
use gotrendlabs.Prelude.Table.{lookup}
use gotrendlabs.Wallet.{
  Direction, credit, EntryType, grant_initial, Reference, suggestion, feedback,
  wallet_recharge_request, auth_register, LedgerEntry, Wallet, locked_case, available_case,
  record_wallet_entry, insert_entry, ensure_wallet_balance, wallet_summary,
}
use gotrendlabs.Wallet.Consistency.{
  ledger-ensure_wallet_balance, record_wallet_entry-IsConsistent, balance_of,
  balance_of-ensure_wallet_balance, lookup-ensure_wallet_balance,
  ensure_wallet_balance-IsConsistent,
}
use gotrendlabs.Wallet.Effects.{
  available_of, locked_of, locked-record_own, locked-record_other, available-record_own,
  available-record_other,
}
use gotrendlabs.Db.{Db, with_wallet}
use gotrendlabs.Db.Backing.{IsBacked}
use gotrendlabs.Lifecycle.Engine.{
  ensure_user_core, grant_once, has_initial_grant, initial_grant_gtl,
}

-- The entries of the queues: a reward or a recharge refers to its row.
abbrev pub same_reference : Reference → Reference → Bool
same_reference (suggestion i) (suggestion j) = i == j
same_reference (feedback i) (feedback j) = i == j
same_reference (wallet_recharge_request i) (wallet_recharge_request j) = i == j
same_reference _ _ = false

-- What the ledger has paid for a row of a queue.
unfoldable pub paid : Reference → List LedgerEntry → ℕ
paid r = sum_by (λ e. if same_reference e.reference r then e.amount else 0)

-- No user has a negative available balance.
abbrev pub IsSolvent : Wallet → Type 0
IsSolvent w = (j : ℕ) → neg_part (available_of j w) ≡ 0

module _ (u : ℕ) (t : EntryType) (amount : ℕ) (d : Direction) (ref : Reference)
    (by : Option ℕ) where
  pub paid-record_wallet_entry :
      (r : Reference) (w : Wallet)
      → paid r (record_wallet_entry u t amount d ref by w).ledger
        ≡ (if same_reference ref r then amount else 0) + paid r w.ledger
  unfolding paid record_wallet_entry insert_entry
  paid-record_wallet_entry r w =
      ap
        (λ l.
          (if same_reference ref r then amount else 0)
          + sum_by (λ e. if same_reference e.reference r then e.amount else 0) l)
        (ledger-ensure_wallet_balance u w)

  pub record_wallet_entry-IsBacked :
      (db : Db)
      → locked_case d amount ≡ pos 0
      → IsBacked db
      → IsBacked (with_wallet (record_wallet_entry u t amount d ref by) db)
  record_wallet_entry-IsBacked db e h = record {
    backed = λ j. elim (Bool-cases (u == j)) [
      | inl same ↦
          locked-record_own u j t amount d ref by db.wallet same
          ∙ ap (λ z. z +ℤ locked_of j db.wallet) e
          ∙ zero-+ℤ _
          ∙ h.backed j
      | inr other ↦ locked-record_other u j t amount d ref by db.wallet other ∙ h.backed j
    ];
    consistent = record_wallet_entry-IsConsistent u t amount d ref by db.wallet h.consistent;
    keyed = h.keyed;
  }

  -- An entry that the user's available balance covers.
  pub record_wallet_entry-IsSolvent :
      (w : Wallet)
      → neg_part (available_case d amount +ℤ available_of u w) ≡ 0
      → IsSolvent w
      → IsSolvent (record_wallet_entry u t amount d ref by w)
  record_wallet_entry-IsSolvent w e h j = elim (Bool-cases (u == j)) [
    | inl same ↦
        ap neg_part (available-record_own u j t amount d ref by w same)
        ∙ ap (λ v. neg_part (available_case d amount +ℤ available_of v w))
            (sym ((==_iff _ _).0 same))
        ∙ e
    | inr other ↦ ap neg_part (available-record_other u j t amount d ref by w other) ∙ h j
  ]

pub credit_fits : (n : ℕ) (z : ℤ) → neg_part z ≡ 0 → neg_part (pos n +ℤ z) ≡ 0
unfolding ◌+ℤ◌
credit_fits n z h = ground arith

pub debit_fits :
    (n : ℕ) (z : ℤ) → ltb_ℤ z (pos n) ≡ false → neg_part z ≡ 0 → neg_part (neg n +ℤ z) ≡ 0
unfolding ◌+ℤ◌ neg
debit_fits n z h k = ground arith

-- What setting up a user's core rows keeps.
pub record KeepsSums (w w' : Wallet) : Type 0 where
  pub sums : (r : Reference) → paid r w'.ledger ≡ paid r w.ledger
  pub solvent : IsSolvent w → IsSolvent w'

ensure-KeepsSums : (u : ℕ) (w : Wallet) → KeepsSums w (ensure_wallet_balance u w)
ensure-KeepsSums u w = record {
  sums = λ r. ap (paid r) (ledger-ensure_wallet_balance u w);
  solvent =
      λ h j. ap (λ b. neg_part b.available_gtl) (balance_of-ensure_wallet_balance u j w) ∙ h j;
}

grant_once-KeepsSums : (u : ℕ) (w : Wallet) → KeepsSums w (grant_once u w)
unfolding grant_once available_case has_initial_grant
grant_once-KeepsSums u w =
    if_either (KeepsSums w) (has_initial_grant u w) (ensure-KeepsSums u w) (record {
      sums = λ r. omega (
        arith,
        paid-record_wallet_entry u grant_initial initial_grant_gtl credit (auth_register u) none r
            w,
      );
      solvent = λ h.
          record_wallet_entry-IsSolvent u grant_initial initial_grant_gtl credit (auth_register u)
            none w (credit_fits initial_grant_gtl (available_of u w) (h u)) h;
    })

pub ensure_user_core-KeepsSums :
    (u : ℕ) (db : Db) → KeepsSums db.wallet (ensure_user_core u db).wallet
unfolding ensure_user_core
ensure_user_core-KeepsSums u db = elim (Option-cases (lookup u db.users)) [
  | inl missing ↦ rw (ensure_user_core, missing) (record { sums = λ r. refl; solvent = λ h. h })
  | inr (user, known) ↦
      rw (ensure_user_core, known)
        (if_either (λ (d : Db). KeepsSums db.wallet d.wallet)
          (user.is_staff || user.is_superuser || user.is_bot) (ensure-KeepsSums u db.wallet)
          (grant_once-KeepsSums u db.wallet))
]

-- The summary is the row that it ensures.
pub wallet_summary-balance_of :
    (u : ℕ) (w : Wallet) → (wallet_summary u w).0 ≡ balance_of u (wallet_summary u w).1
unfolding wallet_summary balance_of
wallet_summary-balance_of u w = rw (lookup-ensure_wallet_balance, ==_refl) refl

-- To read a summary keeps the sums.
pub wallet_summary-KeepsSums : (u : ℕ) (w : Wallet) → KeepsSums w (wallet_summary u w).1
unfolding wallet_summary
wallet_summary-KeepsSums u w = ensure-KeepsSums u w

pub wallet_summary-IsBacked :
    (u : ℕ) (db : Db)
    → IsBacked db
    → IsBacked (record db { wallet = (wallet_summary u db.wallet).1 })
unfolding wallet_summary
wallet_summary-IsBacked u db h = record {
  backed =
      λ j. ap (λ b. b.locked_gtl) (balance_of-ensure_wallet_balance u j db.wallet) ∙ h.backed j;
  consistent = ensure_wallet_balance-IsConsistent u db.wallet h.consistent;
  keyed = h.keyed;
}
