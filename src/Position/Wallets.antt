-- ===== src/Position/Wallets.antt =====
-- What the wallet entries of a position change amount to.
use gotrendlabs.Prelude.{
  ℕ, ◌+◌, ◌≡◌, List, [], ◌∷◌, none, true, false, ◌∙◌, ==_iff, ◌==◌, refl, inl, inr, Bool-cases,
  if◌then◌else◌,
}
use gotrendlabs.Prelude.Int.{pos, ◌+ℤ◌, int_laws, parts_of_eq}
use gotrendlabs.Wallet.{
  Wallet, available_case, locked_case, prediction_stake_lock, prediction_refund, prediction, lock,
  release, debit, prediction_revision_penalty, record_wallet_entry,
}
use gotrendlabs.Wallet.Consistency.{IsConsistent, record_wallet_entry-IsConsistent}
use gotrendlabs.Wallet.Effects.{
  locked_of, available_of, locked-record_own, available-record_own, locked-record_other,
  available-record_other,
}
use gotrendlabs.Db.{Prediction}
use gotrendlabs.Position.Queries.{total_stake}
use gotrendlabs.Position.Apply.{release_stakes, charge_penalty, lock_position_stake}

abbrev pub share : ℕ → ℕ → ℕ → ℕ
share u j n = if u == j then n else 0

abbrev release_one : ℕ → Prediction → Wallet → Wallet
release_one u p w =
    record_wallet_entry u prediction_refund p.stake_amount release (prediction p.id) none w

-- Every released stake leaves the locked balance for the available one.
pub locked-release_own :
    (u j : ℕ) (ps : List Prediction) (w : Wallet)
    → (u == j) ≡ true
    → locked_of j (release_stakes u ps w) +ℤ pos (total_stake ps) ≡ locked_of j w
unfolding release_stakes locked_case
locked-release_own u j [] w same = omega int_laws
locked-release_own u j (p ∷ ps) w same = omega (
  int_laws,
  parts_of_eq (locked-release_own u j ps (release_one u p w) same),
  parts_of_eq (
      locked-record_own u j prediction_refund p.stake_amount release (prediction p.id) none w same),
)

pub available-release_own :
    (u j : ℕ) (ps : List Prediction) (w : Wallet)
    → (u == j) ≡ true
    → available_of j (release_stakes u ps w) ≡ available_of j w +ℤ pos (total_stake ps)
unfolding release_stakes available_case
available-release_own u j [] w same = omega int_laws
available-release_own u j (p ∷ ps) w same = omega (
  int_laws,
  parts_of_eq (available-release_own u j ps (release_one u p w) same),
  parts_of_eq (
      available-record_own u j prediction_refund p.stake_amount release (prediction p.id) none w
        same),
)

pub release_other :
    (u j : ℕ) (ps : List Prediction) (w : Wallet)
    → (u == j) ≡ false
    → (locked_of j (release_stakes u ps w) ≡ locked_of j w)
      × (available_of j (release_stakes u ps w) ≡ available_of j w)
unfolding release_stakes
release_other u j [] w other = (refl, refl)
release_other u j (p ∷ ps) w other =
    let (l, a) = release_other u j ps (release_one u p w) other in
    (
      l
          ∙ locked-record_other u j prediction_refund p.stake_amount release (prediction p.id) none
              w other,
      a
          ∙ available-record_other u j prediction_refund p.stake_amount release (prediction p.id)
              none w other,
    )

pub release-IsConsistent :
    (u : ℕ) (ps : List Prediction) (w : Wallet)
    → IsConsistent w
    → IsConsistent (release_stakes u ps w)
unfolding release_stakes
release-IsConsistent u [] w h = h
release-IsConsistent u (p ∷ ps) w h = release-IsConsistent u ps (release_one u p w) (
    record_wallet_entry-IsConsistent u prediction_refund p.stake_amount release (prediction p.id)
      none w h)

-- The four wallet steps of a revision, in their order.
abbrev pub revision_wallet : ℕ → List Prediction → ℕ → ℕ → ℕ → Wallet → Wallet
revision_wallet u active new_stake penalty id w =
    lock_position_stake u new_stake id (charge_penalty u penalty id (release_stakes u active w))

module _ (u j : ℕ) (penalty id : ℕ) (w : Wallet) where
  charge_own :
      (u == j) ≡ true
      → (locked_of j (charge_penalty u penalty id w) ≡ locked_of j w)
        × (available_of j (charge_penalty u penalty id w) +ℤ pos penalty ≡ available_of j w)
  unfolding charge_penalty available_case locked_case
  charge_own same = elim (Bool-cases (penalty == 0)) [
    | inl nothing ↦ rw nothing (refl, omega (int_laws, (==_iff penalty 0).0 nothing))
    | inr some_penalty ↦ rw some_penalty (
      omega (
        int_laws,
        parts_of_eq (
            locked-record_own u j prediction_revision_penalty penalty debit (prediction id) none w
              same),
      ),
      omega (
        int_laws,
        parts_of_eq (
            available-record_own u j prediction_revision_penalty penalty debit (prediction id) none
              w same),
      ),
    )
  ]

  charge_other :
      (u == j) ≡ false
      → (locked_of j (charge_penalty u penalty id w) ≡ locked_of j w)
        × (available_of j (charge_penalty u penalty id w) ≡ available_of j w)
  unfolding charge_penalty
  charge_other other = elim (Bool-cases (penalty == 0)) [
    | inl nothing ↦ rw nothing (refl, refl)
    | inr some_penalty ↦ rw some_penalty (
      locked-record_other u j prediction_revision_penalty penalty debit (prediction id) none w
          other,
      available-record_other u j prediction_revision_penalty penalty debit (prediction id) none w
          other,
    )
  ]

  charge-IsConsistent : IsConsistent w → IsConsistent (charge_penalty u penalty id w)
  unfolding charge_penalty
  charge-IsConsistent h = elim (Bool-cases (penalty == 0)) [
    | inl nothing ↦ rw nothing h
    | inr some_penalty ↦ rw some_penalty (
        record_wallet_entry-IsConsistent u prediction_revision_penalty penalty debit (prediction id)
          none w h)
  ]

module _ (u j : ℕ) (active : List Prediction) (new_stake penalty id : ℕ) (w : Wallet) where
  -- The user who revises keeps the available balance and loses the penalty from the locked one,
  -- when the active stakes are the new stake and the penalty together.
  pub revision_own :
      (u == j) ≡ true
      → total_stake active ≡ new_stake + penalty
      → let w' = revision_wallet u active new_stake penalty id w in
        (available_of j w' ≡ available_of j w) × (locked_of j w' +ℤ pos penalty ≡ locked_of j w)
  unfolding lock_position_stake available_case locked_case
  revision_own same split =
      let w1 = release_stakes u active w in
      let w2 = charge_penalty u penalty id w1 in
      (
        omega (
          int_laws,
          parts_of_eq (
              available-record_own u j prediction_stake_lock new_stake lock (prediction id) none w2
                same),
          parts_of_eq (charge_own u j penalty id w1 same).1,
          parts_of_eq (available-release_own u j active w same),
        ),
        omega (
          int_laws,
          parts_of_eq (
              locked-record_own u j prediction_stake_lock new_stake lock (prediction id) none w2
                same),
          parts_of_eq (charge_own u j penalty id w1 same).0,
          parts_of_eq (locked-release_own u j active w same),
        ),
      )

  -- Nobody else's balance moves.
  pub revision_other :
      (u == j) ≡ false
      → let w' = revision_wallet u active new_stake penalty id w in
        (available_of j w' ≡ available_of j w) × (locked_of j w' ≡ locked_of j w)
  unfolding lock_position_stake
  revision_other other =
      let w1 = release_stakes u active w in
      let w2 = charge_penalty u penalty id w1 in
      (
        available-record_other u j prediction_stake_lock new_stake lock (prediction id) none w2
              other
            ∙ (charge_other u j penalty id w1 other).1
            ∙ (release_other u j active w other).1,
        locked-record_other u j prediction_stake_lock new_stake lock (prediction id) none w2 other
            ∙ (charge_other u j penalty id w1 other).0
            ∙ (release_other u j active w other).0,
      )

pub revision-IsConsistent :
    (u : ℕ) (active : List Prediction) (new_stake penalty id : ℕ) (w : Wallet)
    → IsConsistent w
    → IsConsistent (revision_wallet u active new_stake penalty id w)
unfolding lock_position_stake
revision-IsConsistent u active new_stake penalty id w h =
    record_wallet_entry-IsConsistent u prediction_stake_lock new_stake lock (prediction id) none _
      (charge-IsConsistent u u penalty id _ (release-IsConsistent u active w h))
