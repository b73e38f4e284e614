-- ===== src/Wallet/Effects.antt =====
-- What one recorded entry does to the three numbers that a user sees.
use gotrendlabs.Prelude.{
  ℕ, ◌≡◌, refl, true, false, Option, ap, ◌∙◌, ◌==◌, if◌then◌else◌, inl, inr, Bool-cases,
}
use gotrendlabs.Prelude.Int.{ℤ, pos, ◌+ℤ◌, zero-+ℤ}
use gotrendlabs.Wallet.Defs.{
  Direction, EntryType, Reference, Balance, Wallet, add, available_case, locked_case,
  record_wallet_entry,
}
use gotrendlabs.Wallet.Consistency.{balance_of, balance_of-record_wallet_entry, deltas-eq-cases}

abbrev pub available_of : ℕ → Wallet → ℤ
available_of u w = (balance_of u w).available_gtl

abbrev pub locked_of : ℕ → Wallet → ℤ
locked_of u w = (balance_of u w).locked_gtl

module _ (u j : ℕ) (t : EntryType) (amount : ℕ) (d : Direction) (r : Reference) (by : Option ℕ)
    (w : Wallet) where
  pub locked-record_wallet_entry :
      locked_of j (record_wallet_entry u t amount d r by w)
      ≡ (if u == j then locked_case d amount else pos 0) +ℤ locked_of j w
  unfolding add
  locked-record_wallet_entry =
      ap (λ (b : Balance). b.locked_gtl) (balance_of-record_wallet_entry u t amount d r by w j)
      ∙ elim (Bool-cases (u == j)) [
        | inl same ↦ rw (same, deltas-eq-cases) refl
        | inr other ↦ rw (other, zero-+ℤ) refl
      ]

  pub available-record_wallet_entry :
      available_of j (record_wallet_entry u t amount d r by w)
      ≡ (if u == j then available_case d amount else pos 0) +ℤ available_of j w
  unfolding add
  available-record_wallet_entry =
      ap (λ (b : Balance). b.available_gtl) (balance_of-record_wallet_entry u t amount d r by w j)
      ∙ elim (Bool-cases (u == j)) [
        | inl same ↦ rw (same, deltas-eq-cases) refl
        | inr other ↦ rw (other, zero-+ℤ) refl
      ]

  -- The two cases, for the entry's user and for everybody else.
  pub locked-record_own :
      (u == j) ≡ true
      → locked_of j (record_wallet_entry u t amount d r by w)
        ≡ locked_case d amount +ℤ locked_of j w
  locked-record_own same =
      locked-record_wallet_entry
      ∙ ap (λ b. (if b then locked_case d amount else pos 0) +ℤ locked_of j w) same

  pub locked-record_other :
      (u == j) ≡ false → locked_of j (record_wallet_entry u t amount d r by w) ≡ locked_of j w
  locked-record_other other =
      locked-record_wallet_entry
      ∙ ap (λ b. (if b then locked_case d amount else pos 0) +ℤ locked_of j w) other
      ∙ zero-+ℤ _

  pub available-record_own :
      (u == j) ≡ true
      → available_of j (record_wallet_entry u t amount d r by w)
        ≡ available_case d amount +ℤ available_of j w
  available-record_own same =
      available-record_wallet_entry
      ∙ ap (λ b. (if b then available_case d amount else pos 0) +ℤ available_of j w) same

  pub available-record_other :
      (u == j) ≡ false → available_of j (record_wallet_entry u t amount d r by w) ≡ available_of j w
  available-record_other other =
      available-record_wallet_entry
      ∙ ap (λ b. (if b then available_case d amount else pos 0) +ℤ available_of j w) other
      ∙ zero-+ℤ _
