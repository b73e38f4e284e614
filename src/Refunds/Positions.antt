-- ===== src/Refunds/Positions.antt =====
-- First predictions, reinforcements and revisions leave every open prediction refundable.
use gotrendlabs.Prelude.{
  ℕ, suc, ◌≤◌, ◌<◌, Option, Bool-cases, ◌≡◌, true, false, none, some, [], ◌∷◌, ◌++◌, arith, ◌==◌,
  refl, ◌∙◌, ap, if_either, ==_refl, inl, inr,
}
use mathlib.Core.Option
use gotrendlabs.Prelude.Table.{Table, lookup, update, lookup-update}
use gotrendlabs.Wallet.{
  Wallet, Balance, add, lock, debit, prediction_stake_lock, prediction_revision_penalty, prediction,
}
use gotrendlabs.Db.{Db, Market, MarketOption, Prediction, reinforcement, revision, with_wallet}
use gotrendlabs.Db.Backing.{IsKeyed}
use gotrendlabs.Lifecycle.Refund.{has_refund}
use gotrendlabs.Lifecycle.Refunding.{has_row, is_some, has_refund-cons}
use gotrendlabs.Position.Queries.{active_positions}
use gotrendlabs.Position.Write.{
  new_prediction, insert_prediction, insert_prediction_position, lock_initial_stake, lock_stake,
}
use gotrendlabs.Position.Validate.{Preview}
use gotrendlabs.Position.Apply.{
  release_stakes, supersede, charge_penalty, lock_position_stake, apply_revision,
  apply_reinforcement,
}
use gotrendlabs.Position.Stakes.{IsKeyed-supersede, supersede-append_new}
use gotrendlabs.Position.Backing.{inserted, first}
use gotrendlabs.Refunds.Entries.{
  AreNumbered, AreNumbered-mono, AreNumbered-next, Spares, Spares-refl, Spares-trans, Unnamed,
  record-Spares, has_row-record, has_refund-record_lock, has_refund-lock,
}
use gotrendlabs.Refunds.Rows.{IsRefundable, IsRefundable-append, IsSafe}
use gotrendlabs.Refunds.Markets.{CanRefund}
use gotrendlabs.Refunds.Superseding.{active_positions-IsRefundable}

-- What the wallet step of a new prediction does for it and to the others.
abbrev Locks : ℕ → ℕ → Wallet → Wallet → Type 0
Locks u id w w' =
    (AreNumbered id w.last_id w.ledger → has_refund id w'.ledger ≡ false)
    × Spares id (Unnamed (prediction id)) w w'
    × (has_row u w' ≡ true)

lock_position-Locks :
    (u stake id : ℕ) (w : Wallet) → Locks u id w (lock_position_stake u stake id w)
unfolding lock_position_stake
lock_position-Locks u stake id w = (
  has_refund-record_lock id id u prediction_stake_lock stake none w,
  record-Spares u prediction_stake_lock stake lock (prediction id) none w id (omega arith),
  has_row-record u prediction_stake_lock stake lock (prediction id) none w u ∙ rw (==_refl u) refl,
)

charge_penalty-Spares :
    (u penalty id : ℕ) (w : Wallet)
    → Spares id (Unnamed (prediction id)) w (charge_penalty u penalty id w)
unfolding charge_penalty
charge_penalty-Spares u penalty id w =
    if_either (Spares id (Unnamed (prediction id)) w) (penalty == 0) (Spares-refl id _ w) (
      record-Spares u prediction_revision_penalty penalty debit (prediction id) none w id
        (omega arith))

has_row-update :
    (j k : ℕ) (f : Balance → Balance) (t : Table Balance)
    → is_some (lookup j (update k f t)) ≡ is_some (lookup j t)
has_row-update j k f t = ap is_some (lookup-update k j f t) ∙ elim (Bool-cases (k == j)) [
  | inl same ↦ rw same (mapped (lookup j t))
  | inr other ↦ rw other refl
]
  where
    mapped : (o : Option Balance) → is_some (Option.map f o) ≡ is_some o
    mapped none = refl
    mapped (some b) = refl

-- The first stake is locked in a balance row that is there.
lock_initial-Locks :
    (u stake id : ℕ) (w : Wallet)
    → has_row u w ≡ true
    → Locks u id w (lock_initial_stake u stake id w)
unfolding lock_initial_stake
lock_initial-Locks u stake id w row =
    let next : w.last_id < suc w.last_id = omega arith in
    (
      λ h. has_refund-lock id w.last_id id _ w.ledger h next (==_refl id) refl,
      record {
        rows = λ j r. has_row-update j u (add (lock_stake stake)) w.balances ∙ r;
        numbered = λ h.
            let le : suc w.last_id ≤ suc w.last_id = omega arith in
            let self : id ≤ id = omega arith in
            ((le, self), AreNumbered-next id w.last_id w.ledger h);
        kept = λ k other unrefunded. has_refund-cons k _ w.ledger other ∙ unrefunded;
      },
      has_row-update u u (add (lock_stake stake)) w.balances ∙ row,
    )

-- A new row under the next id, with the wallet steps that lock its stake.
locked-IsRefundable :
    (n u : ℕ) (p : Prediction) (w w' : Wallet) (t : Table Prediction)
    → IsKeyed n t
    → p.id ≡ suc n
    → p.user_id ≡ u
    → Locks u p.id w w'
    → IsRefundable n w t
    → IsRefundable p.id w' (t ++ (p.id, p) ∷ [])
locked-IsRefundable n u p w w' t keyed next user locks h =
    let low : n ≤ p.id = omega (arith, next) in
    let last : w.last_id ≤ w.last_id = omega arith in
    IsRefundable-append n p w w' t keyed next locks.1 (ap (λ j. has_row j w') user ∙ locks.2)
      (locks.0 (AreNumbered-mono n p.id w.last_id w.last_id w.ledger low last h.numbered)) h

module _ (u now : ℕ) (market : Market) (option : MarketOption) (preview : Preview) (db : Db)
    (h : IsSafe db) where
  pub apply_reinforcement-CanRefund :
      CanRefund (apply_reinforcement u now market option preview db).1
  unfolding apply_reinforcement insert_prediction_position
  apply_reinforcement-CanRefund =
      let p = inserted u market.id option preview.stake_amount reinforcement now db in
      locked-IsRefundable db.last_prediction_id u p db.wallet _ db.predictions h.backed.keyed refl
        refl (lock_position-Locks u preview.stake_amount p.id db.wallet) h.refundable

  pub apply_revision-CanRefund :
      CanRefund (apply_revision u now market option (active_positions u market.id db) preview db).1
  unfolding apply_revision insert_prediction_position
  apply_revision-CanRefund =
      let n = db.last_prediction_id in
      let p = inserted u market.id option preview.new_position_stake_amount revision now db in
      let w1 = release_stakes u (active_positions u market.id db) db.wallet in
      let w2 = charge_penalty u preview.penalty_amount p.id w1 in
      let locks = lock_position-Locks u preview.new_position_stake_amount p.id w2 in
      let charges = charge_penalty-Spares u preview.penalty_amount p.id w1 in
      rw (supersede-append_new u market.id p.id now p db.predictions refl) (
        locked-IsRefundable n u p w1 _ (supersede u market.id p.id now db.predictions)
          (IsKeyed-supersede u market.id p.id now n db.predictions h.backed.keyed) refl refl
          (λ a. locks.0 (charges.numbered a), Spares-trans charges locks.1, locks.2)
          (active_positions-IsRefundable u market.id p.id now db h.backed.keyed (omega arith)
            h.refundable))

module _ (u m : ℕ) (option : MarketOption) (stake now : ℕ) (db : Db) (h : IsSafe db) where
  pub first-CanRefund :
      has_row u db.wallet ≡ true
      → CanRefund (
          with_wallet
            (lock_initial_stake u stake (first u m option stake now db).id)
            (insert_prediction (first u m option stake now db) db))
  unfolding insert_prediction new_prediction
  first-CanRefund row =
      let p = first u m option stake now db in
      locked-IsRefundable db.last_prediction_id u p db.wallet _ db.predictions h.backed.keyed refl
        refl (lock_initial-Locks u stake p.id db.wallet row) h.refundable
