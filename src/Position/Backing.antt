-- ===== src/Position/Backing.antt =====
-- Creating, reinforcing and revising a position keep the locked balances equal to the open stakes.
use gotrendlabs.Prelude.{
  ℕ, suc, ◌+◌, ◌≡◌, none, [], ◌∷◌, ◌++◌, ◌==◌, true, false, arith, refl, inl, inr, Bool-cases, ◌∙◌,
}
use gotrendlabs.Prelude.Int.{int_laws, parts_of_eq, eq_of_parts}
use gotrendlabs.Prelude.Table.{Table}
use gotrendlabs.Wallet.{lock, prediction_stake_lock, prediction, locked_case}
use gotrendlabs.Wallet.Consistency.{record_wallet_entry-IsConsistent}
use gotrendlabs.Wallet.Effects.{locked-record_own, locked-record_other}
use gotrendlabs.Db.{
  Db, Market, MarketOption, Prediction, PredictionStatus, ActionType, initial, reinforcement,
  revision, open_stake_of, open_stakes, sum_rows, with_wallet,
}
use gotrendlabs.Db.Stakes.{sum_rows-append, IsKeyed-append}
use gotrendlabs.Db.Backing.{IsKeyed, IsBacked}
use gotrendlabs.Position.Queries.{active_positions, total_stake}
use gotrendlabs.Position.Write.{
  new_prediction, insert_prediction, insert_prediction_position, lock_initial_stake,
}
use gotrendlabs.Position.InitialStake.{
  lock_initial_stake-IsConsistent, locked-lock_initial_own, locked-lock_initial_other,
}
use gotrendlabs.Position.Validate.{Preview}
use gotrendlabs.Position.Apply.{supersede, apply_revision, apply_reinforcement, lock_position_stake}
use gotrendlabs.Position.Stakes.{
  active_rows, total_stake-active_positions, open_stakes-supersede, IsKeyed-supersede,
  supersede-append_new,
}
use gotrendlabs.Position.Wallets.{share, revision_own, revision_other, revision-IsConsistent}

share_own : (u j n : ℕ) → (u == j) ≡ true → share u j n ≡ n
share_own u j n same = rw same refl

share_other : (u j n : ℕ) → (u == j) ≡ false → share u j n ≡ 0
share_other u j n other = rw other refl

-- A fresh open row of the user adds its stake to the user's sum.
abbrev pub IsFreshRow : ℕ → ℕ → ℕ → Prediction → Type 0
IsFreshRow u last stake p =
    (p.id ≡ suc last)
    × (p.user_id ≡ u)
    × (p.stake_amount ≡ stake)
    × (p.status ≡ PredictionStatus.opened)

open_stakes-insert :
    (u j last stake : ℕ) (p : Prediction) (t : Table Prediction)
    → IsFreshRow u last stake p
    → open_stakes j (t ++ (p.id, p) ∷ []) ≡ open_stakes j t + share u j stake
unfolding sum_rows
open_stakes-insert u j last stake p t f =
    sum_rows-append (open_stake_of j) t ((p.id, p) ∷ []) ∙ (ground arith)

open_stakes-revise :
    (u m now j last stake : ℕ) (p : Prediction) (t : Table Prediction)
    → IsKeyed last t
    → IsFreshRow u last stake p
    → open_stakes j (supersede u m p.id now (t ++ (p.id, p) ∷ []))
        + share u j (total_stake (active_rows u m t))
      ≡ open_stakes j t + share u j stake
open_stakes-revise u m now j last stake p t k f = rw (supersede-append_new u m p.id now p t refl) (
    omega (
      arith,
      open_stakes-insert u j last stake p (supersede u m p.id now t) f,
      open_stakes-supersede u m p.id now j last t k (omega arith),
    ))

module _ (u m : ℕ) (option : MarketOption) (stake : ℕ) (a : ActionType) (now : ℕ) (db : Db) where
  abbrev pub inserted : Prediction
  inserted = (insert_prediction_position u m option stake a now db).0

  inserted-IsFreshRow : IsFreshRow u db.last_prediction_id stake inserted
  unfolding insert_prediction_position
  inserted-IsFreshRow = (refl, refl, refl, refl)

module _ (u now : ℕ) (market : Market) (option : MarketOption) (preview : Preview) (db : Db) where
  -- A reinforcement keeps every locked balance equal to the stakes in open predictions, every row
  -- equal to the ledger's totals, and the prediction ids unique.
  pub apply_reinforcement-IsBacked :
      IsBacked db → IsBacked (apply_reinforcement u now market option preview db).1
  unfolding apply_reinforcement insert_prediction_position lock_position_stake locked_case
  apply_reinforcement-IsBacked h = record {
    backed = λ j.
        let p = inserted u market.id option preview.stake_amount reinforcement now db in
        let rows =
          open_stakes-insert u j db.last_prediction_id preview.stake_amount p db.predictions
            (inserted-IsFreshRow u market.id option preview.stake_amount reinforcement now db) in
        elim (Bool-cases (u == j)) [
          | inl same ↦ eq_of_parts _ _ (
              omega (
                int_laws,
                rows,
                share_own u j preview.stake_amount same,
                parts_of_eq (h.backed j),
                parts_of_eq (
                    locked-record_own u j prediction_stake_lock preview.stake_amount lock
                      (prediction p.id) none db.wallet same),
              ))
          | inr other ↦ eq_of_parts _ _ (
              omega (
                int_laws,
                rows,
                share_other u j preview.stake_amount other,
                parts_of_eq (h.backed j),
                parts_of_eq (
                    locked-record_other u j prediction_stake_lock preview.stake_amount lock
                      (prediction p.id) none db.wallet other),
              ))
        ];
    consistent =
        record_wallet_entry-IsConsistent u prediction_stake_lock preview.stake_amount lock _ none _
          h.consistent;
    keyed = IsKeyed-append db.last_prediction_id _ db.predictions h.keyed refl;
  }

  pub apply_revision-IsBacked :
      IsBacked db
      → total_stake (active_positions u market.id db)
        ≡ preview.new_position_stake_amount + preview.penalty_amount
      → IsBacked (apply_revision u now market option (active_positions u market.id db) preview db).1
  unfolding apply_revision insert_prediction_position
  apply_revision-IsBacked h split = record {
    backed = λ j.
        let active = active_positions u market.id db in
        let new_stake = preview.new_position_stake_amount in
        let penalty = preview.penalty_amount in
        let p = inserted u market.id option new_stake revision now db in
        let rows =
          open_stakes-revise u market.id now j db.last_prediction_id new_stake p db.predictions
            h.keyed (inserted-IsFreshRow u market.id option new_stake revision now db) in
        elim (Bool-cases (u == j)) [
          | inl same ↦ eq_of_parts _ _ (
              omega (
                int_laws,
                rows,
                share_own u j new_stake same,
                split,
                share_own u j (total_stake (active_rows u market.id db.predictions)) same,
                total_stake-active_positions u market.id db,
                parts_of_eq (h.backed j),
                parts_of_eq (revision_own u j active new_stake penalty p.id db.wallet same split).1,
              ))
          | inr other ↦ eq_of_parts _ _ (
              omega (
                int_laws,
                rows,
                share_other u j new_stake other,
                share_other u j (total_stake (active_rows u market.id db.predictions)) other,
                parts_of_eq (h.backed j),
                parts_of_eq (revision_other u j active new_stake penalty p.id db.wallet other).1,
              ))
        ];
    consistent =
        revision-IsConsistent u (active_positions u market.id db) preview.new_position_stake_amount
          preview.penalty_amount _ _ h.consistent;
    keyed =
        IsKeyed-supersede u market.id _ now _ _
          (IsKeyed-append db.last_prediction_id _ db.predictions h.keyed refl);
  }

module _ (u m : ℕ) (option : MarketOption) (stake now : ℕ) (db : Db) where
  abbrev pub first : Prediction
  first = new_prediction u m option stake initial 1 now db

  first-IsFreshRow : IsFreshRow u db.last_prediction_id stake first
  unfolding new_prediction
  first-IsFreshRow = (refl, refl, refl, refl)

  -- The first prediction of a user in a market keeps the invariant.
  pub first-IsBacked :
      IsBacked db
      → IsBacked (with_wallet (lock_initial_stake u stake first.id) (insert_prediction first db))
  unfolding insert_prediction
  first-IsBacked h = record {
    backed = λ j.
        let rows =
          open_stakes-insert u j db.last_prediction_id stake first db.predictions
            first-IsFreshRow in
        elim (Bool-cases (u == j)) [
          | inl same ↦ eq_of_parts _ _ (
              omega (
                int_laws,
                rows,
                share_own u j stake same,
                parts_of_eq (h.backed j),
                parts_of_eq (locked-lock_initial_own u stake first.id j db.wallet same),
              ))
          | inr other ↦ eq_of_parts _ _ (
              omega (
                int_laws,
                rows,
                share_other u j stake other,
                parts_of_eq (h.backed j),
                parts_of_eq (locked-lock_initial_other u stake first.id j db.wallet other),
              ))
        ];
    consistent = lock_initial_stake-IsConsistent u stake first.id db.wallet h.consistent;
    keyed = IsKeyed-append db.last_prediction_id first db.predictions h.keyed first-IsFreshRow.0;
  }
